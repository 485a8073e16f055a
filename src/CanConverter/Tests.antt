-- ===== src/CanConverter/Tests.antt =====
-- Exports of short recordings.
use cancept.Prelude.{
  ℕ, ◌≢◌, ap, ◌≤◌, ◌≡◌, refl, true, List, [], ◌∷◌, ◌++◌, Bytes, codes, none, some, length, arith,
  map, All, Option, equal, starts_with,
}
use cancept.Prelude.Int.{ℤ, pos, pos_part}
use cancept.Core.Sample.{whole}
use cancept.Core.Dto.{RawCanMessage, DbcCanMessage}
use cancept.DbcParser.Sections.{to_string}
use cancept.CsvReader.{new_reader, open_file, read_raw, read_dbc}
use cancept.CsvReader.Fields.{digit_of, digits_from}
use cancept.CsvWriter.{CsvWriter, time_text}
use cancept.CsvWriter.RoundTrip.{IsText, append-All, to_string-All}
use cancept.CsvWriter.Fields.{not_nil}
use cancept.CsvWriter.Reading.{read_frames, after_calls}
use cancept.CsvWriter.Frames.{IsWritable, as_read}
use cancept.CsvWriter.Hex.{digits_from-to_string}
use cancept.CsvWriter.Columns.{IsColumn, IsField, IsWritableDbc}
use cancept.CsvWriter.DbcFrames.{IsReadBack, dbc_as_read}
use cancept.CsvWriter.Opening.{IsHeader}
use cancept.CanConverter.{csv, convert, named_in, to_display_name}
use cancept.CanConverter.DbcExport.{dbc_recording, read_dbc_frames-convert, convert-read_dbc_frames}
use cancept.CanConverter.Export.{raw_recording, read_frames-convert, convert-read_frames}

-- Whole seconds.
abbrev seconds : ℕ → ℤ → Bytes
seconds decimals x = to_string (pos_part x) ++ codes ".0"

time_text-All : (t : ℤ) → All IsText (time_text whole seconds t)
unfolding time_text All IsText
time_text-All t =
    append-All IsText (to_string _) (codes ".0") (to_string-All _)
      (ground arith, (ground arith, tt))

abbrev frame : ℕ → RawCanMessage
frame id = record {
  receive_time = pos 5000000000;
  payload = 171 ∷ 2 ∷ 0 ∷ [];
  message_id = id;
  dlc = 2;
}

abbrev empty : RawCanMessage
empty = record { receive_time = pos 6000000000; payload = []; message_id = 3; dlc = 0 }

abbrev frames : List RawCanMessage
frames = frame 18 ∷ frame 2047 ∷ []

frame-IsWritable : (id : ℕ) → id ≤ 2047 → IsWritable whole seconds (frame id)
unfolding All IsWritable
frame-IsWritable id h = (
  time_text-All _,
  h,
  omega arith,
  omega arith,
  omega arith,
  (omega arith, (omega arith, (omega arith, tt))),
)

frames-All : All (IsWritable whole seconds) frames
unfolding All
frames-All = (frame-IsWritable 18 (omega arith), (frame-IsWritable 2047 (omega arith), tt))

read_frames-convert_example :
    (w : CsvWriter) × (convert whole seconds
        (codes "a.csv")
        csv
        true
        true
        (raw_recording whole seconds frames [])
      ≡ (codes "a.csv", some w))
    × (read_frames read_raw (length frames) (open_file (some w.lines) new_reader).1
        ≡ map (as_read whole seconds) frames)
read_frames-convert_example =
    read_frames-convert whole seconds (codes "a.csv") true frames [] new_reader frames-All

convert-read_frames_example :
    (w : CsvWriter) × (convert whole seconds
        (codes "a.csv")
        csv
        true
        true
        (raw_recording whole seconds (frames ++ empty ∷ frames) [])
      ≡ (codes "a.csv", some w))
    × (read_frames read_raw 9 (open_file (some w.lines) new_reader).1
        ≡ map (as_read whole seconds) frames)
convert-read_frames_example =
    convert-read_frames whole seconds (codes "a.csv") true frames empty frames [] 9 new_reader
      frames-All (time_text-All (pos 6000000000)) refl (omega arith)

-- Values from 0 on, as digits.
abbrev digits : ℕ → ℤ → Bytes
digits decimals x = 48 ∷ to_string (pos_part x)

abbrev value : Bytes → Option ℤ
value s = some (pos (digits_from 10 0 s))

digits_nonempty : (v : ℤ) → digits 3 v ≢ []
digits_nonempty v = not_nil (digits 3 v) 48 (to_string (pos_part v)) refl

digits-IsReadBack : (v : ℤ) → IsReadBack whole digits value (λ x. pos (pos_part x)) v
unfolding IsReadBack IsField All IsText equal starts_with digits_from digit_of
digits-IsReadBack v = (
  ((omega arith, to_string-All (pos_part v)), digits_nonempty v),
  refl,
  refl,
  ap (λ (n : ℕ). some (pos n)) (digits_from-to_string (pos_part v)),
)

abbrev names : List Bytes
names = codes "speed" ∷ codes "gear" ∷ []

names-All : All IsColumn (map to_display_name names)
unfolding All IsColumn IsText to_display_name named_in equal starts_with
names-All = (
  (omega arith, not_nil _ _ _ refl, refl, refl),
  ((omega arith, not_nil _ _ _ refl, refl, refl), tt),
)

abbrev values : List (DbcCanMessage ℤ)
values =
    record {
      receive_time = pos 5000000000;
      signal_values = record { name = codes "gear"; value = pos 3 } ∷ [];
      message_id = 18;
    }
    ∷ record {
      receive_time = pos 6000000000;
      signal_values =
          record { name = codes "gear"; value = pos 4 }
          ∷ record { name = codes "speed"; value = pos 120 }
          ∷ [];
      message_id = 19;
    }
    ∷ []

digits-All : (t : ℤ) → All IsText (time_text whole digits t)
unfolding time_text All IsText
digits-All t = (omega arith, to_string-All _)

values-All : All (IsWritableDbc whole digits) values
unfolding All IsWritableDbc
values-All = ((digits-All _, omega arith), ((digits-All _, omega arith), tt))

read_dbc_frames-convert_example :
    (w : CsvWriter) × (convert whole digits
        (codes "a.csv")
        csv
        true
        true
        (dbc_recording whole digits names [] values)
      ≡ (codes "a.csv", some w))
    × (read_frames (read_dbc ℤ value) 2 (open_file (some w.lines) new_reader).1
        ≡ map
            (dbc_as_read whole digits value (λ x. pos (pos_part x)) (map to_display_name names))
            values)
read_dbc_frames-convert_example =
    read_dbc_frames-convert whole digits value (λ x. pos (pos_part x)) (codes "a.csv") true names []
      values new_reader digits-IsReadBack names-All values-All

one_named : map to_display_name (codes "gear" ∷ codes "ID" ∷ []) ≡ codes "gear" ∷ codes "ID" ∷ []
unfolding to_display_name named_in equal starts_with
one_named = refl

one_named-All : All IsHeader (codes "gear" ∷ codes "ID" ∷ [])
unfolding All IsHeader IsText
one_named-All = ((omega arith, not_nil _ _ _ refl), ((omega arith, not_nil _ _ _ refl), tt))

convert-read_dbc_frames_example :
    (w : CsvWriter) × (convert whole digits
        (codes "a.csv")
        csv
        true
        true
        (dbc_recording whole digits (codes "gear" ∷ codes "ID" ∷ []) [] values)
      ≡ (codes "a.csv", some w))
    × ((read_dbc ℤ value
          (after_calls (read_dbc ℤ value) 2 (open_file (some w.lines) new_reader).1)).0
        ≡ none)
convert-read_dbc_frames_example =
    convert-read_dbc_frames whole digits value (codes "a.csv") true (codes "gear" ∷ codes "ID" ∷ [])
      (codes "gear" ∷ []) [] [] values 2 new_reader one_named one_named-All
