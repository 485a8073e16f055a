-- ===== src/DbcParser/Numbers.antt =====
-- `std::to_string` and `parseUInt`: the number that is written is the number that is read.
use cancept.Prelude.{
  ℕ, zero, suc, ◌+◌, ◌/◌, ◌%◌, ◌^◌, ◌≤◌, ◌<◌, ◌≡◌, refl, ap, ap₂, ◌∙◌, Bool, true, false, ◌&&◌, [],
  ◌∷◌, ◌++◌, some, Bytes, ltb, ltb→lt, lt→ltb, length, by_test, arith,
}
use cancept.DbcParser.Lexer.{
  is_space, is_digit, ends_identifier, ends_double, ends_uint, split_first, every, is_nonempty,
  matches_uint, digits_value, spaces_erased, erase_spaces, parse_token, stoi, parse_uint,
}
use cancept.DbcParser.Sections.{digits_before, to_string}

and_true : (a b : Bool) → a && b ≡ true → (a ≡ true) × (b ≡ true)
and_true true b h = (refl, h)
and_true false b h = ground arith

digit_passes : (c : ℕ) → is_digit c ≡ true → (ends_uint c ≡ false) × (is_space c ≡ false)
unfolding is_digit ends_uint ends_double ends_identifier is_space
digit_passes c h = ground arith

split_first-append :
    (s : Bytes) (c : ℕ) (rest : Bytes)
    → every is_digit s ≡ true
    → ends_uint c ≡ true
    → split_first ends_uint (s ++ c ∷ rest) ≡ some (s, c ∷ rest)
unfolding split_first every
split_first-append [] c rest h e = rw (e, split_first) refl
split_first-append (d ∷ s) c rest h e =
    let both = and_true (is_digit d) (every is_digit s) h in
    rw ((digit_passes d both.0).0, split_first-append s c rest both.1 e) refl

last_digit : (n : ℕ) → is_digit (48 + n % 10) ≡ true
unfolding is_digit
last_digit n = ground arith

next_digits :
    (n : ℕ) (rest : Bytes)
    → every is_digit rest ≡ true
    → every is_digit ((48 + n % 10) ∷ rest) ≡ true
unfolding every
next_digits n rest h = ap₂ (λ a b. a && b) (last_digit n) h

no_digit_less : (n : ℕ) → ltb n 10 ≡ false → 10 ≤ n
no_digit_less n h = ground arith

digits_before_digits :
    (fuel n : ℕ) (rest : Bytes)
    → every is_digit rest ≡ true
    → every is_digit (digits_before fuel n rest) ≡ true
unfolding digits_before every
digits_before_digits zero n rest h = h
digits_before_digits (suc fuel) n rest h =
    by_test (ltb n 10) _ _ (λ s. every is_digit s ≡ true) (λ _. next_digits n rest h)
      (λ _. digits_before_digits fuel (n / 10) _ (next_digits n rest h))

digits_value-digits_before :
    (fuel n : ℕ) (rest : Bytes)
    → n < fuel
    → digits_value 0 (digits_before fuel n rest) ≡ digits_value n rest
unfolding digits_value digits_before
digits_value-digits_before zero n rest h = absurd (omega arith)
digits_value-digits_before (suc fuel) n rest h =
    by_test (ltb n 10) _ _ (λ s. digits_value 0 s ≡ digits_value n rest)
      (λ e. ap (λ (t : ℕ). digits_value t rest) (omega (arith, ltb→lt n 10 e)))
      (λ e.
        digits_value-digits_before fuel (n / 10) _ (omega (arith, no_digit_less n e))
        ∙ ap (λ (t : ℕ). digits_value t rest) (omega (arith, no_digit_less n e)))

pub to_string_digits : (n : ℕ) → every is_digit (to_string n) ≡ true
unfolding to_string every
to_string_digits n = digits_before_digits (suc n) n [] refl

pub digits_value-to_string : (n : ℕ) → digits_value 0 (to_string n) ≡ n
unfolding to_string digits_value
digits_value-to_string n = digits_value-digits_before (suc n) n [] (omega arith)

-- A number has a digit.
length-digits_before :
    (fuel n : ℕ) (rest : Bytes) → length rest ≤ length (digits_before fuel n rest)
unfolding digits_before
length-digits_before zero n rest = omega arith
length-digits_before (suc fuel) n rest =
    by_test (ltb n 10) ((48 + n % 10) ∷ rest) _ (λ s. length rest ≤ length s) (λ _. omega arith)
      (λ _. omega (arith, length-digits_before fuel (n / 10) ((48 + n % 10) ∷ rest)))

matches_digits_lem : (s : Bytes) → 0 < length s → every is_digit s ≡ true → matches_uint s ≡ true
unfolding matches_uint is_nonempty
matches_digits_lem [] h e = absurd (omega arith)
matches_digits_lem (c ∷ s) h e = e

matches_uint-to_string : (n : ℕ) → matches_uint (to_string n) ≡ true
unfolding to_string digits_before
matches_uint-to_string n =
    matches_digits_lem (to_string n)
      (by_test (ltb n 10) ((48 + n % 10) ∷ []) _ (λ s. 0 < length s) (λ _. omega arith)
        (λ _. omega (arith, length-digits_before n (n / 10) ((48 + n % 10) ∷ []))))
      (to_string_digits n)

no_spaces : (s rest : Bytes) → matches_uint s ≡ true → spaces_erased (s ++ rest) ≡ s ++ rest
unfolding matches_uint is_nonempty every spaces_erased
no_spaces [] rest h = ground arith
no_spaces (c ∷ s) rest h =
    rw ((digit_passes c (and_true (is_digit c) (every is_digit s) h).0).1) refl

-- A number below 2^31 that `std::to_string` has written, with one of the delimiters behind it, is
-- read by `parseUInt` as that number; the parser is then valid and stands at the delimiter. Spaces
-- in front do not matter to `parseUInt` and are not written here.
pub parse_uint-to_string :
    (n c : ℕ) (rest : Bytes) (v o : Bool)
    → n < 2 ^ 31
    → ends_uint c ≡ true
    → parse_uint (record { file = to_string n ++ c ∷ rest; parsing_valid = v; parsed_object = o })
      ≡ some (n, record { file = c ∷ rest; parsing_valid = true; parsed_object = true })
unfolding parse_uint parse_token erase_spaces stoi
parse_uint-to_string n c rest v o small e =
    let whole_file = no_spaces (to_string n) (c ∷ rest) (matches_uint-to_string n) in
    let parts = split_first-append (to_string n) c rest (to_string_digits n) e in
    let value = digits_value-to_string n in
    rw
      (
        whole_file,
        parts,
        matches_uint-to_string n,
        value,
        lt→ltb n (2 ^ 31) small,
        parse_uint,
        parse_token,
        stoi,
      )
      refl
