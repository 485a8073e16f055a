-- ===== src/CsvReader/Fields.antt =====
-- The free functions of `csv_reader.cpp`: the fields of a line and the numbers in them.
-- `std::from_chars` reads the digits that it finds in front and leaves the number alone, which is 0
-- at each of its calls here, if there is none or the value is out of the type's range.
use cancept.Prelude.{
  ℕ, zero, suc, ◌+◌, ◌-◌, ◌*◌, ◌/◌, ◌^◌, true, false, ◌&&◌, List, [], ◌∷◌, ◌++◌, Option, none, some,
  ltb, leb, ◌==◌, Bytes, codes, length, drop, starts_with, bit_and, if◌then◌else◌,
}
use cancept.Prelude.Int.{ℤ, pos, ◌+ℤ◌, ◌*ℤ◌, pos_part, neg_part, sub_ℕ}

-- The field that is being read, and the rest of the line. Behind the last comma there is a field
-- only if it is not empty.
unfoldable pub fields_from : Bytes → Bytes → List Bytes
fields_from [] [] = []
fields_from (f ∷ field) [] = (f ∷ field) ∷ []
fields_from field (c ∷ cs) = elim (c == b',') [
  | true ↦ field ∷ fields_from [] cs
  | false ↦ fields_from (field ++ c ∷ []) cs
]

unfoldable pub split_line : Bytes → List Bytes
unfolding fields_from
split_line line = fields_from [] line

-- The value of a digit, for a base up to 16.
unfoldable pub digit_of : ℕ → ℕ → Option ℕ
digit_of base c =
    let value =
      if leb b'0' c && leb c b'9'
      then c - b'0'
      else if leb b'a' c && leb c b'f'
      then c - b'a' + 10
      else if leb b'A' c && leb c b'F'
      then c - b'A' + 10
      else base in
    elim (ltb value base) [ true ↦ some value | false ↦ none ]

unfoldable pub digits_from : ℕ → ℕ → Bytes → ℕ
unfolding digit_of
digits_from base acc [] = acc
digits_from base acc (c ∷ cs) = elim (digit_of base c) [
  | none ↦ acc
  | some d ↦ digits_from base (acc * base + d) cs
]

-- `std::from_chars` into an unsigned number of `bits` bits, and into `int64_t`.
unfoldable pub from_chars : ℕ → ℕ → Bytes → ℕ
unfolding digits_from
from_chars bits base s =
    let value = digits_from base 0 s in if ltb value (2 ^ bits) then value else 0

unfoldable pub from_chars_signed : Bytes → ℤ
unfolding digits_from
from_chars_signed s = elim (starts_with s (codes "-")) [
  | true ↦
      (let value = digits_from 10 0 (drop 1 s) in
        if leb value (2 ^ 63) then sub_ℕ 0 value else pos 0)
  | false ↦ (let value = digits_from 10 0 s in if ltb value (2 ^ 63) then pos value else pos 0)
]

unfoldable pub parse_hex_id : Bytes → ℕ
unfolding from_chars
parse_hex_id s =
    let prefixed = if starts_with s (codes "0x") then true else starts_with s (codes "0X") in
    bit_and (from_chars 32 16 (if prefixed then drop 2 s else s)) 2047

-- The part in front of the first point, and the part behind it if there is one.
unfoldable pub split_point : Bytes → Bytes × Option Bytes
split_point [] = ([], none)
split_point (c ∷ cs) =
    let rest = split_point cs in
    elim (c == b'.') [ true ↦ ([], some cs) | false ↦ (c ∷ rest.0, rest.1) ]

-- `fracPart` in nanoseconds: `*= 10` up to nine digits, `/= 10` down to them, towards 0.
unfoldable pub nanoseconds : ℕ → ℤ → ℤ
unfolding ◌*ℤ◌
nanoseconds digits frac =
    let scale = 10 ^ (digits - 9) in
    sub_ℕ (pos_part frac / scale) (neg_part frac / scale) *ℤ pos (10 ^ (9 - digits))

-- In whole numbers: C++ has no defined result beyond `int64_t`.
unfoldable pub parse_timestamp_ns : Bytes → ℤ
unfolding split_point from_chars_signed nanoseconds ◌+ℤ◌ ◌*ℤ◌
parse_timestamp_ns s =
    let parts = split_point s in
    let frac : ℤ = elim parts.1 [
      | none ↦ pos 0
      | some digits ↦ nanoseconds (length digits) (from_chars_signed digits)
    ] in
    from_chars_signed parts.0 *ℤ pos 1000000000 +ℤ frac

unfoldable pub skip_blanks : Bytes → Bytes
skip_blanks [] = []
skip_blanks (c ∷ cs) = elim (c == b' ') [ true ↦ skip_blanks cs | false ↦ c ∷ cs ]

-- The loop over the data field: at most `left` bytes of two characters each.
unfoldable pub data_bytes : ℕ → Bytes → List ℕ
unfolding skip_blanks from_chars
data_bytes zero s = []
data_bytes (suc left) s = elim (skip_blanks s) [
  | [] ↦ []
  | c ∷ [] ↦ []
  | c ∷ d ∷ rest ↦ from_chars 8 16 (c ∷ d ∷ []) ∷ data_bytes left rest
]
