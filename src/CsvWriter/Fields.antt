-- ===== src/CsvWriter/Fields.antt =====
-- The fields of a frame that `CsvWriter` has written, and what `CsvReader` makes of them.
use cancept.Prelude.{
  ℕ, zero, suc, ◌-◌, ◌≤◌, ◌<◌, ◌≡◌, ◌≢◌, refl, sym, ap, ◌∙◌, subst, List, [], ◌∷◌, ◌++◌, Bytes,
  codes, length, replicate, take, min, arith, All, All-map,
}
use cancept.Prelude.Int.{ℤ}
use cancept.Core.Float.{Float}
use cancept.Core.Dto.{RawCanMessage}
use cancept.DbcParser.Sections.{to_string}
use cancept.CsvReader.{CsvReader, raw_record}
use cancept.CsvReader.Fields.{split_line, parse_timestamp_ns, parse_hex_id, from_chars, data_bytes}
use cancept.CsvWriter.{hex, more_bytes, data_text, joined, time_text, raw_fields, raw_line}
use cancept.CsvWriter.Hex.{from_chars-to_string, parse_hex_id-hex}
use cancept.CsvWriter.RoundTrip.{
  IsPlain, IsText, EndsFull, append-All, hex-All, to_string-All, hex_two, split_line_open,
  data_bytes-data_text,
}

pub IsPlain-IsText : (s : Bytes) → All IsPlain s → All IsText s
unfolding IsPlain IsText
IsPlain-IsText s h = All-map s (λ c p. p.0) h

more_bytes-All : (bs : List ℕ) → All IsText (more_bytes bs)
unfolding more_bytes All IsText
more_bytes-All [] = tt
more_bytes-All (b ∷ bs) = (
  ground arith,
  append-All IsText (hex 2 b) (more_bytes bs) (IsPlain-IsText (hex 2 b) (hex-All 2 b))
      (more_bytes-All bs),
)

data_text-All : (bs : List ℕ) → All IsText (data_text bs)
unfolding data_text All
data_text-All [] = tt
data_text-All (b ∷ bs) =
    append-All IsText (hex 2 b) (more_bytes bs) (IsPlain-IsText (hex 2 b) (hex-All 2 b))
      (more_bytes-All bs)

IsCons : Bytes → Type 0
IsCons [] = ⊥
IsCons (c ∷ cs) = Unit

pub not_nil : (s : Bytes) (c : ℕ) (cs : Bytes) → s ≡ c ∷ cs → s ≢ []
unfolding IsCons
not_nil s c cs e n = subst IsCons (sym e ∙ n) tt

data_text-nil : (b : ℕ) (bs : List ℕ) → b < 256 → data_text (b ∷ bs) ≢ []
unfolding data_text
data_text-nil b bs h = not_nil _ _ _ (ap (λ t. t ++ more_bytes bs) (hex_two b h))

taken_full :
    (n : ℕ) (bs : List ℕ)
    → 0 < n
    → 0 < length bs
    → All (λ b. b < 256) bs
    → data_text (take n bs) ≢ []
unfolding All
taken_full zero bs h k a = absurd (omega arith)
taken_full (suc n) [] h k a = absurd (omega arith)
taken_full (suc n) (b ∷ bs) h k a = data_text-nil b (take n bs) a.0

take-All : (P : ℕ → Type 0) (n : ℕ) (bs : List ℕ) → All P bs → All P (take n bs)
unfolding All
take-All P zero bs a = tt
take-All P (suc n) [] a = tt
take-All P (suc n) (b ∷ bs) a = (a.0, take-All P n bs a.1)

take_short : (n : ℕ) (bs : List ℕ) → length (take n bs) ≤ n
take_short zero bs = omega arith
take_short (suc n) [] = omega arith
take_short (suc n) (b ∷ bs) = (let rest = take_short n bs in omega (arith, rest))

filled : ℤ → List ℕ → ℕ → ℕ → RawCanMessage
filled t bytes id dlc = record {
  receive_time = t;
  payload = bytes ++ replicate (8 - length bytes) 0;
  message_id = id;
  dlc = dlc;
}

filled_same :
    (t : ℤ) {b c : List ℕ} {i j n k : ℕ} → b ≡ c → i ≡ j → n ≡ k → filled t b i n ≡ filled t c j k
filled_same t {c = c} {i = i} {j = j} {n = n} e f g =
    ap (λ b. filled t b i n) e ∙ ap (λ (x : ℕ). filled t c x n) f ∙ ap (λ (x : ℕ). filled t c j x) g

-- A record of seven fields, the columns at their places.
raw_record_seven :
    (r : CsvReader) (t c i x d n b : Bytes)
    → r.col_id ≡ 2
    → r.col_dlc ≡ 4
    → r.col_data ≡ 6
    → raw_record r (t ∷ c ∷ i ∷ x ∷ d ∷ n ∷ b ∷ [])
      ≡ filled (parse_timestamp_ns t) (data_bytes 8 b) (parse_hex_id i) (from_chars 8 10 d)
unfolding raw_record filled
raw_record_seven r t c i x d n b ci cd cx = rw (ci, cd, cx) refl

min_left : (n : ℕ) → n ≤ 8 → min n 8 ≡ n
min_left n h = ground (arith, h)

data_bytes-taken :
    (n : ℕ) (bs : List ℕ)
    → n ≤ 8
    → All (λ b. b < 256) bs
    → data_bytes 8 (data_text (take (min n 8) bs)) ≡ take n bs
data_bytes-taken n bs h a =
    ap (λ (k : ℕ). data_bytes 8 (data_text (take k bs))) (min_left n h)
    ∙ (let short = take_short n bs in
        data_bytes-data_text 8 (take n bs) (omega (arith, short, h)) (take-All _ n bs a))

module _ (F : Float) (format : ℕ → Float.Real F → Bytes) where
  pub raw_fields-All :
      (m : RawCanMessage)
      → All IsText (time_text F format m.receive_time)
      → All (All IsText) (raw_fields F format m)
  unfolding raw_fields All IsText
  raw_fields-All m t = (
    t,
    (
      (ground arith, tt),
      (
        (
          ground arith,
          (ground arith, IsPlain-IsText (hex 3 m.message_id) (hex-All 3 m.message_id)),
        ),
        (
          (ground arith, (ground arith, tt)),
          (
            to_string-All m.dlc,
            (to_string-All m.dlc, (data_text-All (take (min m.dlc 8) m.payload), tt)),
          ),
        ),
      ),
    ),
  )

  pub raw_fields-EndsFull :
      (m : RawCanMessage)
      → 0 < m.dlc
      → 0 < length m.payload
      → All (λ b. b < 256) m.payload
      → EndsFull (raw_fields F format m)
  unfolding raw_fields EndsFull
  raw_fields-EndsFull m d l a = taken_full (min m.dlc 8) m.payload (omega arith) l a

  -- What the reader makes of the fields.
  pub raw_record-raw_fields :
      (r : CsvReader) (m : RawCanMessage)
      → r.col_id ≡ 2
      → r.col_dlc ≡ 4
      → r.col_data ≡ 6
      → m.message_id ≤ 2047
      → m.dlc ≤ 8
      → All (λ b. b < 256) m.payload
      → raw_record r (raw_fields F format m) ≡ record {
        receive_time = parse_timestamp_ns (time_text F format m.receive_time);
        payload = take m.dlc m.payload ++ replicate (8 - length (take m.dlc m.payload)) 0;
        message_id = m.message_id;
        dlc = m.dlc;
      }
  unfolding raw_fields filled
  raw_record-raw_fields r m ci cd cx id d a =
      raw_record_seven r (time_text F format m.receive_time) (codes "1")
        (codes "0x" ++ hex 3 m.message_id) (codes "Rx") (to_string m.dlc) (to_string m.dlc)
        (data_text (take (min m.dlc 8) m.payload)) ci cd cx
      ∙ filled_same (parse_timestamp_ns (time_text F format m.receive_time))
          (data_bytes-taken m.dlc m.payload d a) (parse_hex_id-hex m.message_id id)
          (from_chars-to_string m.dlc (omega (arith, d)))

  -- The fields in front of the data.
  unfoldable pub front : RawCanMessage → List Bytes
  front m =
      time_text F format m.receive_time
      ∷ codes "1"
      ∷ (codes "0x" ++ hex 3 m.message_id)
      ∷ codes "Rx"
      ∷ to_string m.dlc
      ∷ to_string m.dlc
      ∷ []

  front-All :
      (m : RawCanMessage)
      → All IsText (time_text F format m.receive_time)
      → All (All IsText) (front m)
  unfolding front All IsText
  front-All m t = (
    t,
    (
      (ground arith, tt),
      (
        (
          ground arith,
          (ground arith, IsPlain-IsText (hex 3 m.message_id) (hex-All 3 m.message_id)),
        ),
        ((ground arith, (ground arith, tt)), (to_string-All m.dlc, (to_string-All m.dlc, tt))),
      ),
    ),
  )

  pub raw_line_empty :
      (m : RawCanMessage) → m.dlc ≡ 0 → raw_line F format m ≡ joined (front m ++ [] ∷ [])
  unfolding raw_line raw_fields front data_text
  raw_line_empty m d =
      ap (λ (n : ℕ). joined (front m ++ data_text (take (min n 8) m.payload) ∷ [])) d

  pub split_line_empty :
      (m : RawCanMessage)
      → All IsText (time_text F format m.receive_time)
      → split_line (joined (front m ++ [] ∷ [])) ≡ front m
  unfolding front
  split_line_empty m t = split_line_open (time_text F format m.receive_time) _ (front-All m t)
