-- ===== src/CanConverter/Export.antt =====
-- The frames of an exported file, read again.
use cancept.Prelude.{
  ℕ, ◌<◌, ◌≡◌, refl, sym, if◌then◌else◌, ap, ◌∙◌, subst, Bool, true, false, List, [], ◌∷◌, ◌++◌,
  append-nil, append_assoc, map, some, Bytes, codes, length, equal, starts_with, All,
}
use cancept.Core.Float.{Float}
use cancept.Core.Dto.{RawCanMessage, DbcCanMessage}
use cancept.CsvReader.{
  CsvReader, open_file, advance_lookahead, count_records, resolve_columns, read_raw,
}
use cancept.CsvReader.Fields.{split_line, fields_from}
use cancept.CsvReader as Reader
use cancept.CsvWriter.{
  CsvWriter, new_writer, with_msg_id, joined, raw_line, write_raw, close, time_text,
}
use cancept.CsvWriter.RoundTrip.{IsText}
use cancept.CsvWriter.Reading.{
  read_frames, StandsAt, advance_lookahead-StandsAt, read_frames-map, read_frames-append,
}
use cancept.CsvWriter.Frames.{
  IsRawReader, placed-IsRawReader, IsWritable, as_read, raw_line-IsFilled, read_raw-raw_line,
  read_raw_empty,
}
use cancept.CanConverter.{csv, Source, named_in, to_display_name, write_raw_all, convert}

-- The columns of a recorded file of raw frames.
abbrev pub raw_columns : List Bytes
raw_columns =
    codes "t"
    ∷ codes "CAN_DataFrame.BusChannel"
    ∷ codes "CAN_DataFrame.ID"
    ∷ codes "CAN_DataFrame.Dir"
    ∷ codes "CAN_DataFrame.DLC"
    ∷ codes "CAN_DataFrame.DataLength"
    ∷ codes "CAN_DataFrame.DataBytes"
    ∷ []

abbrev header_line : Bytes
header_line = codes "Time (s),Channel,ID,Direction,DLC,Data Length,Data"

abbrev shown : List Bytes
shown =
    codes "Time (s)"
    ∷ codes "Channel"
    ∷ codes "ID"
    ∷ codes "Direction"
    ∷ codes "DLC"
    ∷ codes "Data Length"
    ∷ codes "Data"
    ∷ []

opened_on : List Bytes → CsvReader → CsvReader
opened_on lines r = record (Reader.close r) {
  data_lines = lines;
  unread = lines;
  is_raw = true;
  opened = true;
  cursor = 0;
  record_count = count_records lines;
  column_headers = shown;
  col_id = 2;
  col_dlc = 4;
  col_data = 6;
}

module _ (F : Float) (format : ℕ → Float.Real F → Bytes) where
  open F use {Real}

  write_raw_opened :
      (m : RawCanMessage) (w : CsvWriter)
      → w.opened ≡ true
      → write_raw F format m w ≡ record w { lines = w.lines ++ raw_line F format m ∷ [] }
  unfolding write_raw
  write_raw_opened m w o =
      ap (λ b. if b then record w { lines = w.lines ++ raw_line F format m ∷ [] } else w) o

  -- What the loop leaves in the file.
  write_raw_all-lines :
      (ms : List RawCanMessage) (w : CsvWriter)
      → w.opened ≡ true
      → (write_raw_all F format ms w).lines ≡ w.lines ++ map (raw_line F format) ms
  unfolding write_raw_all
  write_raw_all-lines [] w o = sym (append-nil w.lines)
  write_raw_all-lines (m ∷ ms) w o =
      ap (λ v. (write_raw_all F format ms v).lines) (write_raw_opened m w o)
      ∙ write_raw_all-lines ms (record w { lines = w.lines ++ raw_line F format m ∷ [] }) o
      ∙ append_assoc w.lines (raw_line F format m ∷ []) (map (raw_line F format) ms)

  -- A reader that opens the exported file stands at its first frame.
  open_file-StandsAt :
      (ms : List RawCanMessage) (r : CsvReader)
      → StandsAt IsRawReader placed-IsRawReader
          (map (raw_line F format) ms)
          (open_file (some (header_line ∷ map (raw_line F format) ms)) r).1
  unfolding open_file split_line fields_from resolve_columns equal starts_with StandsAt opened_on
      IsRawReader
  open_file-StandsAt [] r = tt
  open_file-StandsAt (m ∷ ms) r =
      advance_lookahead-StandsAt IsRawReader placed-IsRawReader
        (opened_on (map (raw_line F format) (m ∷ ms)) r) (raw_line F format m)
        (map (raw_line F format) ms) (refl, refl, refl, refl, refl) (raw_line-IsFilled F format m)
        refl

  unfoldable pub raw_recording : List RawCanMessage → List (DbcCanMessage Real) → Source Real
  raw_recording ms ds = record {
    can_open = true;
    is_dbc = false;
    column_headers = raw_columns;
    raw_frames = ms;
    dbc_frames = ds;
  }

  exported : List RawCanMessage → CsvWriter
  exported ms =
      close (write_raw_all F format ms (new_writer true false (map to_display_name raw_columns)))

  exported-lines :
      (ms : List RawCanMessage) → (exported ms).lines ≡ header_line ∷ map (raw_line F format) ms
  unfolding exported close new_writer with_msg_id joined to_display_name named_in equal starts_with
  exported-lines ms = write_raw_all-lines ms (new_writer true false shown) refl

  exported-StandsAt :
      (ms : List RawCanMessage) (r : CsvReader)
      → StandsAt IsRawReader placed-IsRawReader
          (map (raw_line F format) ms)
          (open_file (some (exported ms).lines) r).1
  exported-StandsAt ms r =
      subst
        (λ lines.
          StandsAt IsRawReader placed-IsRawReader (map (raw_line F format) ms)
            (open_file (some lines) r).1)
        (sym (exported-lines ms)) (open_file-StandsAt ms r)

  -- A recorded file of raw frames is exported as CSV, and the file can be written. The conversion
  -- then returns the target's path, and a reader that opens the exported file returns, one call of
  -- `read` after the other, every frame of the recorded file in order, with the time that its text
  -- denotes and zeros behind its data. Each frame carries 1 to 8 bytes and has an identifier of at
  -- most eleven bits, and no text of a time has a comma.
  pub read_frames-convert :
      (target : Bytes) (copied : Bool) (ms : List RawCanMessage) (ds : List (DbcCanMessage Real))
      (r : CsvReader)
      → All (IsWritable F format) ms
      → (w : CsvWriter) × (convert F format target csv copied true (raw_recording ms ds)
          ≡ (target, some w))
        × (read_frames read_raw (length ms) (open_file (some w.lines) r).1
            ≡ map (as_read F format) ms)
  unfolding convert raw_recording exported
  read_frames-convert target copied ms ds r h = (
    exported ms,
    refl,
    read_frames-map IsRawReader placed-IsRawReader read_raw (raw_line F format) (as_read F format)
        (IsWritable F format) (raw_line-IsFilled F format) (read_raw-raw_line F format) ms _ h
        (exported-StandsAt ms r),
  )

  -- A recorded file of raw frames, one of which carries no data, is exported as CSV, and the file
  -- can be written. The conversion then returns the target's path, and however often `read` is
  -- called on the exported file until it fails, at least once more than there are frames in front of
  -- that one, only those in front are returned. Each frame in front carries 1 to 8 bytes and has an
  -- identifier of at most eleven bits, and the texts of the times up to that frame have no comma.
  pub convert-read_frames :
      (target : Bytes) (copied : Bool) (ms : List RawCanMessage) (m : RawCanMessage)
      (rest : List RawCanMessage) (ds : List (DbcCanMessage Real)) (n : ℕ) (r : CsvReader)
      → All (IsWritable F format) ms
      → All IsText (time_text F format m.receive_time)
      → m.dlc ≡ 0
      → length ms < n
      → (w : CsvWriter) × (convert F format target csv copied true
            (raw_recording (ms ++ m ∷ rest) ds)
          ≡ (target, some w))
        × (read_frames read_raw n (open_file (some w.lines) r).1 ≡ map (as_read F format) ms)
  unfolding convert raw_recording exported
  convert-read_frames target copied ms m rest ds n r h t d l = (
    exported (ms ++ m ∷ rest),
    refl,
    read_frames-append IsRawReader placed-IsRawReader read_raw (raw_line F format)
        (as_read F format) (IsWritable F format) (raw_line-IsFilled F format)
        (read_raw-raw_line F format) m (read_raw_empty F format m t d) ms rest n _ h l
        (exported-StandsAt (ms ++ m ∷ rest) r),
  )
