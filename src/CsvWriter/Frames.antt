-- ===== src/CsvWriter/Frames.antt =====
-- A raw frame that `CsvWriter` has written, read by `CsvReader`.
use cancept.Prelude.{
  ℕ, ◌-◌, ◌≤◌, ◌<◌, ◌≡◌, ap, ◌∙◌, Bool, true, false, List, ◌++◌, Option, none, some, Bytes, length,
  replicate, take, leb, not, ◌||◌, arith, All,
}
use cancept.Core.Float.{Float}
use cancept.Core.Dto.{RawCanMessage}
use cancept.CsvReader.{CsvReader, advance, raw_record, read_raw}
use cancept.CsvReader.Fields.{split_line, parse_timestamp_ns}
use cancept.CsvWriter.{joined, time_text, raw_fields, raw_line}
use cancept.CsvWriter.RoundTrip.{IsText, split_line-joined}
use cancept.CsvWriter.Reading.{IsFilled, IsFilled-comma, placed}
use cancept.CsvWriter.Fields.{
  raw_fields-All, raw_fields-EndsFull, raw_record-raw_fields, front, raw_line_empty,
  split_line_empty,
}

pub second_of : {A : Type 0} (b : Bool) (x y : A) → b ≡ false → elim b [ true ↦ x | false ↦ y ] ≡ y
second_of b x y e = ap (λ c. elim c [ true ↦ x | false ↦ y ]) e

pub no_guard :
    (r : CsvReader) (b : Bool)
    → r.opened ≡ true
    → r.eof ≡ false
    → b ≡ false
    → (not r.opened || r.eof || b) ≡ false
no_guard r b e f g = ground (arith, e, f, g)

-- A reader of raw frames with the columns of the format.
unfoldable pub IsRawReader : CsvReader → Type 0
IsRawReader r =
    (r.opened ≡ true) × (r.is_raw ≡ true) × (r.col_id ≡ 2) × (r.col_dlc ≡ 4) × (r.col_data ≡ 6)

pub placed-IsRawReader :
    (r : CsvReader) (line : Bytes) (lines : List Bytes) (cursor : ℕ)
    → IsRawReader r
    → IsRawReader (placed r line lines cursor)
unfolding IsRawReader
placed-IsRawReader r line lines cursor h = h

-- What `read` returns of these fields.
outcome : CsvReader → List Bytes → Option RawCanMessage × CsvReader
outcome r fields = elim (leb (length fields) r.col_data) [
  | true ↦ (none, advance r)
  | false ↦ (some (raw_record r fields), advance r)
]

read_raw-outcome :
    (r : CsvReader) (fields : List Bytes)
    → IsRawReader r
    → r.eof ≡ false
    → split_line r.next_line ≡ fields
    → read_raw r ≡ outcome r fields
unfolding read_raw outcome IsRawReader
read_raw-outcome r fields (o, w, ci, cd, cx) e s =
    second_of (not r.opened || r.eof || not r.is_raw) _ _ (no_guard r (not r.is_raw) o e (ap not w))
    ∙ ap (outcome r) s

outcome_some :
    (r : CsvReader) (fields : List Bytes)
    → leb (length fields) r.col_data ≡ false
    → outcome r fields ≡ (some (raw_record r fields), advance r)
unfolding outcome
outcome_some r fields k = second_of _ _ _ k

outcome_none :
    (r : CsvReader) (fields : List Bytes)
    → leb (length fields) r.col_data ≡ true
    → outcome r fields ≡ (none, advance r)
unfolding outcome
outcome_none r fields k =
    ap (λ b. elim b [ true ↦ (none, advance r) | false ↦ (some (raw_record r fields), advance r) ])
      k

module _ (F : Float) (format : ℕ → Float.Real F → Bytes) where
  -- A frame that survives the file: 1 to 8 bytes, an identifier of at most eleven bits and a text
  -- of its time without a comma.
  unfoldable pub IsWritable : RawCanMessage → Type 0
  IsWritable m =
      All IsText (time_text F format m.receive_time)
      × (m.message_id ≤ 2047)
      × (0 < m.dlc)
      × (m.dlc ≤ 8)
      × (0 < length m.payload)
      × All (λ b. b < 256) m.payload

  unfoldable pub as_read : RawCanMessage → RawCanMessage
  as_read m = record {
    receive_time = parse_timestamp_ns (time_text F format m.receive_time);
    payload = take m.dlc m.payload ++ replicate (8 - length (take m.dlc m.payload)) 0;
    message_id = m.message_id;
    dlc = m.dlc;
  }

  pub raw_line-IsFilled : (m : RawCanMessage) → IsFilled (raw_line F format m)
  unfolding raw_line raw_fields joined
  raw_line-IsFilled m = IsFilled-comma (time_text F format m.receive_time) _

  leb_six :
      (m : RawCanMessage) {col : ℕ} → col ≡ 6 → leb (length (raw_fields F format m)) col ≡ false
  unfolding raw_fields
  leb_six m e = ap (λ (n : ℕ). leb 7 n) e

  -- A writable frame is read, with zeros in place of the bytes beyond its length.
  pub read_raw-raw_line :
      (r : CsvReader) (m : RawCanMessage)
      → IsRawReader r
      → r.eof ≡ false
      → r.next_line ≡ raw_line F format m
      → IsWritable m
      → read_raw r ≡ (some (as_read m), advance r)
  unfolding raw_line IsWritable as_read IsRawReader
  read_raw-raw_line r m (o, w, ci, cd, cx) e next (t, id, d₀, d, l, a) =
      read_raw-outcome r (raw_fields F format m) (o, w, ci, cd, cx) e
        (ap split_line next
          ∙ split_line-joined (raw_fields F format m) (raw_fields-All F format m t)
              (raw_fields-EndsFull F format m d₀ l a))
      ∙ outcome_some r (raw_fields F format m) (leb_six m cx)
      ∙ ap (λ x. (some x, advance r)) (raw_record-raw_fields F format r m ci cd cx id d a)

  -- `read` fails at a frame without data.
  pub read_raw_empty :
      (m : RawCanMessage)
      → All IsText (time_text F format m.receive_time)
      → m.dlc ≡ 0
      → (r : CsvReader) → IsRawReader r
      → r.eof ≡ false
      → r.next_line ≡ raw_line F format m
      → (read_raw r).0 ≡ none
  unfolding front IsRawReader
  read_raw_empty m t d r (o, w, ci, cd, cx) e next =
      ap (λ q. q.0)
        (read_raw-outcome r (front F format m) (o, w, ci, cd, cx) e
            (ap split_line (next ∙ raw_line_empty F format m d) ∙ split_line_empty F format m t)
          ∙ outcome_none r (front F format m) (ap (λ (n : ℕ). leb 6 n) cx))
