-- ===== src/CanConverter/DbcExport.antt =====
-- The frames of physical values of an exported file, read again.
use cancept.Prelude.{
  ℕ, ◌≡◌, refl, sym, if◌then◌else◌, ap, ◌∙◌, subst, Bool, true, List, [], ◌∷◌, ◌++◌, append-nil,
  append_assoc, map, Option, none, some, Bytes, codes, length, equal, starts_with, All,
}
use cancept.Core.Float.{Float}
use cancept.Core.Dto.{RawCanMessage, DbcCanMessage}
use cancept.CsvReader.{CsvReader, open_file, read_dbc}
use cancept.CsvWriter.{CsvWriter, new_writer, with_msg_id, joined, dbc_line, write_dbc, close}
use cancept.CsvWriter.Reading.{
  read_frames, after_calls, StandsAt, advance_lookahead-StandsAt, read_frames-map,
}
use cancept.CsvWriter.Columns.{columns_of, IsColumn, IsWritableDbc, dbc_line-IsFilled}
use cancept.CsvWriter.DbcFrames.{
  IsDbcReader, placed-IsDbcReader, IsReadBack, dbc_as_read, read_dbc-dbc_line,
}
use cancept.CsvWriter.Opening.{
  IsHeader, IsColumn-IsHeader, opened_on, opened_on-IsDbcReader, open_file-opened_on,
  resolve_columns-append, advance_lookahead-raw, after_calls-raw,
}
use cancept.CanConverter.{csv, Source, named_in, to_display_name, write_dbc_all, convert}

module _ (F : Float) (format : ℕ → Float.Real F → Bytes) where
  open F use {Real}

  write_dbc_opened :
      (m : DbcCanMessage Real) (w : CsvWriter)
      → w.opened ≡ true
      → write_dbc F format m w ≡ record w { lines = w.lines ++ dbc_line F format w.headers m ∷ [] }
  unfolding write_dbc
  write_dbc_opened m w o =
      ap (λ b. if b then record w { lines = w.lines ++ dbc_line F format w.headers m ∷ [] } else w)
        o

  -- What the loop leaves in the file.
  write_dbc_all-lines :
      (ms : List (DbcCanMessage Real)) (w : CsvWriter)
      → w.opened ≡ true
      → (write_dbc_all F format ms w).lines ≡ w.lines ++ map (dbc_line F format w.headers) ms
  unfolding write_dbc_all
  write_dbc_all-lines [] w o = sym (append-nil w.lines)
  write_dbc_all-lines (m ∷ ms) w o =
      ap (λ v. (write_dbc_all F format ms v).lines) (write_dbc_opened m w o)
      ∙ write_dbc_all-lines ms (record w { lines = w.lines ++ dbc_line F format w.headers m ∷ [] })
          o
      ∙ append_assoc w.lines (dbc_line F format w.headers m ∷ [])
          (map (dbc_line F format w.headers) ms)

  open_file-StandsAt :
      (hs : List Bytes) (ms : List (DbcCanMessage Real)) (r : CsvReader)
      → All IsColumn hs
      → StandsAt
          (IsDbcReader hs)
          (placed-IsDbcReader hs)
          (map (dbc_line F format (columns_of hs)) ms)
          (open_file
            (some (joined (columns_of hs) ∷ map (dbc_line F format (columns_of hs)) ms))
            r).1
  unfolding StandsAt opened_on
  open_file-StandsAt hs [] r a = tt
  open_file-StandsAt hs (m ∷ ms) r a =
      let lines = map (dbc_line F format (columns_of hs)) (m ∷ ms) in
      subst (StandsAt (IsDbcReader hs) (placed-IsDbcReader hs) lines)
        (sym (open_file-opened_on hs lines r (IsColumn-IsHeader hs a)))
        (advance_lookahead-StandsAt (IsDbcReader hs) (placed-IsDbcReader hs)
          (opened_on (columns_of hs) lines r) (dbc_line F format (columns_of hs) m)
          (map (dbc_line F format (columns_of hs)) ms) (opened_on-IsDbcReader hs lines r a)
          (dbc_line-IsFilled F format hs m) refl)

  unfoldable pub dbc_recording :
      List Bytes → List RawCanMessage → List (DbcCanMessage Real) → Source Real
  dbc_recording names rs ms = record {
    can_open = true;
    is_dbc = true;
    column_headers = codes "t" ∷ names;
    raw_frames = rs;
    dbc_frames = ms;
  }

  exported : List Bytes → List (DbcCanMessage Real) → CsvWriter
  exported hs ms = close (write_dbc_all F format ms (new_writer true true (codes "Time (s)" ∷ hs)))

  exported-StandsAt :
      (hs : List Bytes) (ms : List (DbcCanMessage Real)) (r : CsvReader)
      → All IsColumn hs
      → StandsAt
          (IsDbcReader hs)
          (placed-IsDbcReader hs)
          (map (dbc_line F format (columns_of hs)) ms)
          (open_file (some (exported hs ms).lines) r).1
  unfolding exported close new_writer with_msg_id
  exported-StandsAt hs ms r a =
      subst
        (λ lines.
          StandsAt (IsDbcReader hs) (placed-IsDbcReader hs)
            (map (dbc_line F format (columns_of hs)) ms) (open_file (some lines) r).1)
        (sym (write_dbc_all-lines ms (new_writer true true (codes "Time (s)" ∷ hs)) refl))
        (open_file-StandsAt hs ms r a)

  -- A recorded file of physical values is exported as CSV, and the file can be written. The
  -- conversion then returns the target's path, and a reader that opens the exported file returns,
  -- one call of `read` after the other, every frame of the recorded file in order, with the time
  -- that its text denotes and, column by column, the value that the frame has for the column's
  -- signal, rounded as its text is; a column whose signal the frame does not have adds none. A value
  -- has a text without a comma that is neither empty nor "-" and that `stod` reads as the rounded
  -- value; no text of a time has a comma; each frame has an identifier of at most eleven bits; the
  -- header of a column behind the first is not empty, has no comma and is neither "ID" nor "MsgID".
  pub read_dbc_frames-convert :
      (stod : Bytes → Option Real) (rounded : Real → Real) (target : Bytes) (copied : Bool)
      (names : List Bytes) (rs : List RawCanMessage) (ms : List (DbcCanMessage Real))
      (r : CsvReader)
      → ((v : Real) → IsReadBack F format stod rounded v)
      → All IsColumn (map to_display_name names)
      → All (IsWritableDbc F format) ms
      → (w : CsvWriter) × (convert F format target csv copied true (dbc_recording names rs ms)
          ≡ (target, some w))
        × (read_frames (read_dbc Real stod) (length ms) (open_file (some w.lines) r).1
            ≡ map (dbc_as_read F format stod rounded (map to_display_name names)) ms)
  unfolding convert dbc_recording exported to_display_name named_in equal starts_with
  read_dbc_frames-convert stod rounded target copied names rs ms r back a h =
      let hs = map to_display_name names in
      (
        exported hs ms,
        refl,
        read_frames-map (IsDbcReader hs) (placed-IsDbcReader hs) (read_dbc Real stod)
            (dbc_line F format (columns_of hs)) (dbc_as_read F format stod rounded hs)
            (IsWritableDbc F format) (dbc_line-IsFilled F format hs)
            (read_dbc-dbc_line F format stod rounded back hs a) ms _ h
            (exported-StandsAt hs ms r a),
      )

  exported-raw :
      (hs ks : List Bytes) (ms : List (DbcCanMessage Real)) (r : CsvReader)
      → All IsHeader (hs ++ codes "ID" ∷ ks)
      → (open_file (some (exported (hs ++ codes "ID" ∷ ks) ms).lines) r).1.is_raw ≡ true
  unfolding exported close new_writer with_msg_id opened_on
  exported-raw hs ks ms r a =
      let heads = hs ++ codes "ID" ∷ ks in
      let lines = map (dbc_line F format (columns_of heads)) ms in
      subst (λ ls. (open_file (some ls) r).1.is_raw ≡ true)
        (sym (write_dbc_all-lines ms (new_writer true true (codes "Time (s)" ∷ heads)) refl))
        (subst (λ q. q.is_raw ≡ true) (sym (open_file-opened_on heads lines r a))
          (advance_lookahead-raw (opened_on (columns_of heads) lines r)
            (resolve_columns-append 0 (codes "Time (s)" ∷ codes "MsgID" ∷ hs) ks _)))

  -- A recorded file of physical values, one of whose columns behind the first has the header "ID",
  -- is exported as CSV, and the file can be written. The conversion then returns the target's path,
  -- but a reader that opens the exported file takes it for one of raw frames: however many calls of
  -- `read` for frames of physical values have been made on it, and whether these failed or not, the
  -- next such call fails. No header of these columns is empty or has a comma.
  pub convert-read_dbc_frames :
      (stod : Bytes → Option Real) (target : Bytes) (copied : Bool) (names hs ks : List Bytes)
      (rs : List RawCanMessage) (ms : List (DbcCanMessage Real)) (n : ℕ) (r : CsvReader)
      → map to_display_name names ≡ hs ++ codes "ID" ∷ ks
      → All IsHeader (hs ++ codes "ID" ∷ ks)
      → (w : CsvWriter) × (convert F format target csv copied true (dbc_recording names rs ms)
          ≡ (target, some w))
        × ((read_dbc Real stod
              (after_calls (read_dbc Real stod) n (open_file (some w.lines) r).1)).0
            ≡ none)
  unfolding convert dbc_recording exported to_display_name named_in equal starts_with
  convert-read_dbc_frames stod target copied names hs ks rs ms n r e a = (
    exported (hs ++ codes "ID" ∷ ks) ms,
    ap (λ heads. (target, some (exported heads ms))) e,
    after_calls-raw stod n _ (exported-raw hs ks ms r a),
  )
