-- ===== src/CanDbc/Range.antt =====
-- `DbcParser::calculatePhysicalRange` against `CanDbcHandler::parseReceivedSignal`: the raw values
-- that the range is made of bound those that a frame can hold.
use cancept.Prelude.{
  ℕ, suc, ◌-◌, ◌*◌, ◌/◌, ◌^◌, ◌≤◌, ◌<◌, ◌≡◌, inl, inr, refl, sym, ap, ◌∙◌, subst, Bool, true, false,
  leb, ltb, ltb→lt, Bool-cases, arith,
}
use cancept.Prelude.Int.{ℤ, pos, negsuc, ◌≤ℤ◌, sub_ℕ}
use cancept.Prelude.Pow.{two-pow-pos, two-pow-suc}
use native.Mathlib.Nat.{mod-lt, pow-le-pow_right}
use cancept.DbcParser.Range.{raw_min, raw_max}
use cancept.CanDbc.Words.{to_int64, shift_left, shift_signed}
use cancept.CanDbc.Signal.{raw_bits, with_sign}
use cancept.CanDbc.Fields.{field}
use cancept.CanDbc.Placement.{Fits, place, word_of, raw_bits-field, sub_uint_lem}
use cancept.CanDbc.Sign.{to_int64_small, to_int64_large, not_negative, negative, in_word}

unfoldable pub WithinRange : Bool → ℕ → ℤ → Type 0
unfolding raw_min raw_max
WithinRange value_type size z =
    (raw_min value_type size ≤ℤ z) × (z ≤ℤ pos (raw_max value_type size))

below_64 : (n : ℕ) → n < 64 → leb 64 n ≡ false
below_64 n h = ground arith

zero_minus : (p : ℕ) → 0 < p → sub_ℕ 0 p ≡ negsuc (p - 1)
zero_minus p h = ground arith

raw_min_signed : (n : ℕ) → n < 64 → raw_min true n ≡ negsuc (2 ^ (n - 1) - 1)
unfolding raw_min
raw_min_signed n h = rw (below_64 n h, raw_min) (zero_minus (2 ^ (n - 1)) (two-pow-pos (n - 1)))

raw_max_signed : (n : ℕ) → n < 64 → raw_max true n ≡ 2 ^ (n - 1) - 1
unfolding raw_max
raw_max_signed n h = rw (below_64 n h, raw_max) refl

raw_max_unsigned : (n : ℕ) → n < 64 → raw_max false n ≡ 2 ^ n - 1
unfolding raw_max
raw_max_unsigned n h = rw (below_64 n h, raw_max) refl

two_halves : (n : ℕ) → 0 < n → 2 ^ n ≡ 2 * 2 ^ (n - 1)
two_halves n h = ap (λ (t : ℕ). 2 ^ t) {x = n} {y = suc (n - 1)} (omega arith) ∙ two-pow-suc (n - 1)

-- The two's complement of the lowest bits.
with_sign_low : (n x : ℕ) → 0 < n → n < 64 → 2 * x < 2 ^ n → to_int64 (with_sign true n x) ≡ pos x
unfolding with_sign
with_sign_low n x pos_n h low =
    ap (λ (k : ℕ). to_int64 (shift_signed (shift_left x k) k))
      (sub_uint_lem 64 n (omega arith) (omega arith))
    ∙ ap to_int64 (not_negative n (64 - n) pos_n (omega arith) x low)
    ∙ to_int64_small x (in_word n (64 - n) pos_n (omega arith) x low)

with_sign_high :
    (n m : ℕ)
    → 0 < n
    → n < 64
    → 2 * m < 2 ^ n
    → to_int64 (with_sign true n (2 ^ n - 1 - m)) ≡ negsuc m
unfolding with_sign
with_sign_high n m pos_n h low =
    let bound = in_word n (64 - n) pos_n (omega arith) m low in
    ap (λ (k : ℕ). to_int64 (shift_signed (shift_left (2 ^ n - 1 - m) k) k))
      (sub_uint_lem 64 n (omega arith) (omega arith))
    ∙ ap to_int64 (negative n (64 - n) pos_n (omega arith) m low)
    ∙ to_int64_large (2 ^ 64 - 1 - m) (omega (arith, bound))
    ∙ ap negsuc (omega (arith, bound))

signed_range :
    (n : ℕ) (z : ℤ)
    → n < 64
    → negsuc (2 ^ (n - 1) - 1) ≤ℤ z
    → z ≤ℤ pos (2 ^ (n - 1) - 1)
    → WithinRange true n z
unfolding WithinRange
signed_range n z h low high = (
  subst (λ a. a ≤ℤ z) (sym (raw_min_signed n h)) low,
  subst (λ (b : ℕ). z ≤ℤ pos b) (sym (raw_max_signed n h)) high,
)

with_sign-WithinRange :
    (value_type : Bool) (n x : ℕ)
    → 0 < n
    → n < 64
    → x < 2 ^ n
    → WithinRange value_type n (to_int64 (with_sign value_type n x))
unfolding WithinRange with_sign raw_min
with_sign-WithinRange false n x pos_n h small =
    subst (λ z. (pos 0 ≤ℤ z) × (z ≤ℤ pos (raw_max false n)))
      (sym (
        to_int64_small x
          (omega (arith, pow-le-pow_right {n = 2} (omega arith) {i = n} {j = 63} (omega arith)))))
      (omega arith, omega (arith, raw_max_unsigned n h))
with_sign-WithinRange true n x pos_n h small = elim (Bool-cases (ltb (2 * x) (2 ^ n))) [
  | inl e ↦
      subst (WithinRange true n) (sym (with_sign_low n x pos_n h (ltb→lt (2 * x) (2 ^ n) e))) (
        signed_range n (pos x) h (omega arith)
          (omega (arith, two_halves n pos_n, ltb→lt (2 * x) (2 ^ n) e)))
  | inr e ↦
      (let m = 2 ^ n - 1 - x in
        let high : 2 ^ n ≤ 2 * x = ground (arith, e) in
        let low : 2 * m < 2 ^ n = omega (arith, high, small) in
        subst (WithinRange true n)
          (sym (
            ap (λ (t : ℕ). to_int64 (with_sign true n t)) {x = x} {y = 2 ^ n - 1 - m}
              (omega (arith, small))
            ∙ with_sign_high n m pos_n h low))
          (signed_range n (negsuc m) h (omega (arith, two_halves n pos_n, low)) (omega arith)))
]

-- The raw value that is read from a frame, whatever its bytes are, is between the least and the
-- greatest raw value that `calculatePhysicalRange` takes for the size, for a signal that lies within
-- the frame and has less than 64 bits.
pub raw_bits-WithinRange :
    (value_type byte_order : Bool) (start size little big : ℕ)
    → Fits byte_order start size
    → size < 64
    → WithinRange value_type size
        (to_int64 (with_sign value_type size (raw_bits byte_order start size little big)))
unfolding Fits field
raw_bits-WithinRange value_type byte_order start size little big fit h =
    let w = word_of byte_order (little, big) in
    subst (λ (x : ℕ). WithinRange value_type size (to_int64 (with_sign value_type size x)))
      (sym (raw_bits-field byte_order start size little big fit))
      (with_sign-WithinRange value_type size (field (place byte_order start size) size w) fit.0 h
        (mod-lt (w / 2 ^ place byte_order start size) (two-pow-pos size)))
