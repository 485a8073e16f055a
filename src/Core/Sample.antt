-- ===== src/Core/Sample.antt =====
-- A `Float` whose numbers are whole, for runs of the model in tests and for the instances of
-- theorems: division and `strtod` cut the fraction off.
use cancept.Prelude.{ℕ, ◌+◌, ◌-◌, ◌*◌, ◌/◌, Bool, ◌&&◌, [], ◌∷◌, leb, ◌==◌, if◌then◌else◌, Bytes}
use cancept.Prelude.Int.{ℤ, pos, pos_part, neg_part, sub_ℕ, ltb_ℤ}
use cancept.Core.Float.{Float}

abbrev add_ℤ : ℤ → ℤ → ℤ
add_ℤ a b = sub_ℕ (pos_part a + pos_part b) (neg_part a + neg_part b)

abbrev neg_ℤ : ℤ → ℤ
neg_ℤ a = sub_ℕ (neg_part a) (pos_part a)

abbrev mul_ℤ : ℤ → ℤ → ℤ
mul_ℤ a b =
    sub_ℕ (pos_part a * pos_part b + neg_part a * neg_part b)
      (pos_part a * neg_part b + neg_part a * pos_part b)

abbrev div_ℤ : ℤ → ℤ → ℤ
div_ℤ a b =
    sub_ℕ (pos_part a / pos_part b + neg_part a / neg_part b)
      (pos_part a / neg_part b + neg_part a / pos_part b)

abbrev eq_ℤ : ℤ → ℤ → Bool
eq_ℤ a b = pos_part a == pos_part b && neg_part a == neg_part b

abbrev digits_from : ℕ → Bytes → ℕ
digits_from acc [] = acc
digits_from acc (c ∷ cs) =
    let rest = digits_from (acc * 10 + (c - b'0')) cs in
    if leb b'0' c && leb c b'9' then rest else acc

abbrev whole_strtod : Bytes → ℤ
whole_strtod [] = pos 0
whole_strtod (c ∷ cs) =
    if c == b'-'
    then neg_ℤ (pos (digits_from 0 cs))
    else if c == b'+'
    then pos (digits_from 0 cs)
    else pos (digits_from 0 (c ∷ cs))

abbrev pub whole : Float
whole = record {
  Real = ℤ;
  lt = ltb_ℤ;
  eq = eq_ℤ;
  add = add_ℤ;
  sub = λ a b. add_ℤ a (neg_ℤ b);
  neg = neg_ℤ;
  mul = mul_ℤ;
  div = div_ℤ;
  of_ℤ = λ a. a;
  to_ℤ = λ a. a;
  round = λ a. a;
  strtod = whole_strtod;
}
