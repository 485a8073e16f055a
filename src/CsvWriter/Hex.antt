-- ===== src/CsvWriter/Hex.antt =====
-- Numbers that the writer writes are those that the reader reads.
use cancept.Prelude.{
  ℕ, zero, suc, ◌+◌, ◌-◌, ◌*◌, ◌/◌, ◌%◌, ◌^◌, ◌≤◌, ◌<◌, ◌≡◌, refl, ap, ◌∙◌, false, [], ◌∷◌, ◌++◌,
  some, Bytes, codes, length, replicate, ltb, ltb→lt, lt→ltb, by_test, arith, bit_and, bit_and-ones,
  if◌then◌else◌, starts_with,
}
use native.Mathlib.Nat.{mod-eq_of_lt}
use cancept.DbcParser.Sections.{digits_before, to_string}
use cancept.CsvReader.Fields.{digit_of, digits_from, from_chars, parse_hex_id}
use cancept.CsvWriter.{hex_digit, hex_before, hex}

not_less : (n k : ℕ) → ltb n k ≡ false → k ≤ n
not_less n k h = ground (arith, h)

digit_of-hex_digit : (d : ℕ) → d < 16 → digit_of 16 (hex_digit d) ≡ some d
unfolding digit_of hex_digit
digit_of-hex_digit d h = ground (arith, h)

digit_of_decimal : (d : ℕ) → d < 10 → digit_of 10 (48 + d) ≡ some d
unfolding digit_of
digit_of_decimal d h = ground (arith, h)

digits_from-digit :
    (base acc c d : ℕ) (rest : Bytes)
    → digit_of base c ≡ some d
    → digits_from base acc (c ∷ rest) ≡ digits_from base (acc * base + d) rest
unfolding digits_from
digits_from-digit base acc c d rest e = rw (e, digits_from) refl

digits_from-hex_before :
    (fuel n : ℕ) (rest : Bytes)
    → n < fuel
    → digits_from 16 0 (hex_before fuel n rest) ≡ digits_from 16 n rest
unfolding hex_before
digits_from-hex_before zero n rest h = absurd (omega arith)
digits_from-hex_before (suc fuel) n rest h =
    let last = digit_of-hex_digit (n % 16) (omega arith) in
    by_test (ltb n 16) _ _ (λ s. digits_from 16 0 s ≡ digits_from 16 n rest)
      (λ e.
        digits_from-digit 16 0 (hex_digit (n % 16)) (n % 16) rest last
        ∙ ap (λ (t : ℕ). digits_from 16 t rest) (omega (arith, ltb→lt n 16 e)))
      (λ e.
        digits_from-hex_before fuel (n / 16) _ (omega (arith, h, not_less n 16 e))
        ∙ digits_from-digit 16 (n / 16) (hex_digit (n % 16)) (n % 16) rest last
        ∙ ap (λ (t : ℕ). digits_from 16 t rest) (omega arith))

digits_from-zeros :
    (k : ℕ) (s : Bytes) → digits_from 16 0 (replicate k 48 ++ s) ≡ digits_from 16 0 s
unfolding hex_digit
digits_from-zeros zero s = refl
digits_from-zeros (suc k) s =
    digits_from-digit 16 0 48 0 (replicate k 48 ++ s) (digit_of-hex_digit 0 (omega arith))
    ∙ digits_from-zeros k s

digits_from_end : (base n : ℕ) → digits_from base n [] ≡ n
unfolding digits_from
digits_from_end base n = refl

pub digits_from-hex : (width n : ℕ) → digits_from 16 0 (hex width n) ≡ n
unfolding hex
digits_from-hex width n =
    digits_from-zeros (width - length (hex_before (suc n) n [])) (hex_before (suc n) n [])
    ∙ digits_from-hex_before (suc n) n [] (omega arith)
    ∙ digits_from_end 16 n

digits_from-digits_before :
    (fuel n : ℕ) (rest : Bytes)
    → n < fuel
    → digits_from 10 0 (digits_before fuel n rest) ≡ digits_from 10 n rest
unfolding digits_before
digits_from-digits_before zero n rest h = absurd (omega arith)
digits_from-digits_before (suc fuel) n rest h =
    let last = digit_of_decimal (n % 10) (omega arith) in
    by_test (ltb n 10) _ _ (λ s. digits_from 10 0 s ≡ digits_from 10 n rest)
      (λ e.
        digits_from-digit 10 0 (48 + n % 10) (n % 10) rest last
        ∙ ap (λ (t : ℕ). digits_from 10 t rest) (omega (arith, ltb→lt n 10 e)))
      (λ e.
        digits_from-digits_before fuel (n / 10) _ (omega (arith, h, not_less n 10 e))
        ∙ digits_from-digit 10 (n / 10) (48 + n % 10) (n % 10) rest last
        ∙ ap (λ (t : ℕ). digits_from 10 t rest) (omega arith))

in_bits : (n k : ℕ) → n < k → (if ltb n k then n else 0) ≡ n
in_bits n k h = rw (lt→ltb n k h) refl

pub digits_from-to_string : (n : ℕ) → digits_from 10 0 (to_string n) ≡ n
unfolding to_string
digits_from-to_string n =
    digits_from-digits_before (suc n) n [] (omega arith) ∙ digits_from_end 10 n

-- A length that is written is the length that is read.
pub from_chars-to_string : (n : ℕ) → n < 256 → from_chars 8 10 (to_string n) ≡ n
unfolding from_chars
from_chars-to_string n h =
    ap (λ (v : ℕ). if ltb v 256 then v else 0) (digits_from-to_string n) ∙ in_bits n 256 h

pub from_chars-hex : (n : ℕ) → n < 256 → from_chars 8 16 (hex 2 n) ≡ n
unfolding from_chars
from_chars-hex n h =
    ap (λ (v : ℕ). if ltb v 256 then v else 0) (digits_from-hex 2 n) ∙ in_bits n 256 h

prefixed : (s : Bytes) → parse_hex_id (codes "0x" ++ s) ≡ bit_and (from_chars 32 16 s) 2047
unfolding parse_hex_id starts_with
prefixed s = refl

-- An identifier likewise.
pub parse_hex_id-hex : (n : ℕ) → n ≤ 2047 → parse_hex_id (codes "0x" ++ hex 3 n) ≡ n
unfolding from_chars
parse_hex_id-hex n h =
    prefixed (hex 3 n)
    ∙ ap (λ (v : ℕ). bit_and (if ltb v (2 ^ 32) then v else 0) 2047) (digits_from-hex 3 n)
    ∙ ap (λ (v : ℕ). bit_and v 2047) (in_bits n (2 ^ 32) (omega arith))
    ∙ bit_and-ones 11 n
    ∙ mod-eq_of_lt {n = n} {m = 2048} (omega arith)
