-- ===== src/CanDbc/Placement.antt =====
-- Where a signal is in the word of its byte order, and that the shifts read and write just there.
use cancept.Prelude.{
  ℕ, ◌+◌, ◌-◌, ◌*◌, ◌/◌, ◌%◌, ◌^◌, ◌≤◌, ◌<◌, ◌≡◌, refl, sym, ap, ap₂, ◌∙◌, subst, Bool, true, false,
  not, leb, leb→le, Bool-cases, inl, inr, bit_or, bit_or-div, bit_or-zero, ◌⊎◌, bit_and,
  bit_and-ones, zero-bit_or, arith,
}
use cancept.Prelude.Pow.{two-pow-pos, two-pow-add}
use native.Mathlib.Nat.{mod-eq_of_lt, pow-le-pow_right, div-eq_of_lt, lt-div-mul-add}
use cancept.CanDbc.Words.{sub_uint, shift_left, shift_right}
use cancept.CanDbc.Signal.{linear_start, raw_bits, size_mask, put_bits}
use cancept.CanDbc.Fields.{
  field, field-bit_or, field_own, field_below, field_above, two_digits, mod-div, mul-div-two_pow,
}
use cancept.CanDbc.Bytes.{shift_left_lem, shift_right_lem}

-- The first bit of a signal, from the least bit of the word.
unfoldable pub place : Bool → ℕ → ℕ → ℕ
place byte_order start size = elim byte_order [
  | false ↦ start
  | true ↦ 64 - linear_start start - size
]

-- The signal has bits and lies within the 64 bits.
unfoldable pub Fits : Bool → ℕ → ℕ → Type 0
Fits byte_order start size =
    (0 < size) × (elim byte_order [ false ↦ start | true ↦ linear_start start ] + size ≤ 64)

unfoldable pub word_of : Bool → ℕ × ℕ → ℕ
word_of byte_order words = elim byte_order [ false ↦ words.0 | true ↦ words.1 ]

pub sub_uint_lem : (a b : ℕ) → b ≤ a → a < 2 ^ 32 → sub_uint a b ≡ a - b
unfolding sub_uint
sub_uint_lem a b h k = omega arith

pub place-Fits : (b : Bool) (s n : ℕ) → Fits b s n → place b s n + n ≤ 64
unfolding place Fits
place-Fits false s n h = h.1
place-Fits true s n h = omega (arith, h.1)

-- Bits above the field are shifted out, then those below it.
extract :
    (w k s n : ℕ) → k + s + n ≡ 64 → 0 < n → shift_right (shift_left w k) (k + s) ≡ field s n w
unfolding field
extract w k s n h pos_n =
    shift_right_lem (shift_left w k) (k + s) (omega arith)
    ∙ ap (λ (t : ℕ). t / 2 ^ (k + s)) (shift_left_lem w k (omega arith))
    ∙ ap (λ (t : ℕ). w * 2 ^ k % 2 ^ t / 2 ^ (k + s)) (sym h)
    ∙ mod-div (k + s) n (w * 2 ^ k)
    ∙ ap (λ (t : ℕ). t % 2 ^ n) (mul-div-two_pow k s w)

pub raw_bits-field :
    (b : Bool) (s n little big : ℕ)
    → Fits b s n
    → raw_bits b s n little big ≡ field (place b s n) n (word_of b (little, big))
unfolding raw_bits place Fits word_of
raw_bits-field false s n little big h =
    ap₂ (λ (k l : ℕ). shift_right (shift_left little k) l)
      (ap (λ (t : ℕ). sub_uint t n) (sub_uint_lem 64 s (omega (arith, h.1)) (omega arith))
        ∙ sub_uint_lem (64 - s) n (omega (arith, h.1)) (omega arith))
      (sub_uint_lem 64 n (omega (arith, h.1)) (omega arith) ∙ omega (arith, h.1))
    ∙ extract little (64 - s - n) s n (omega (arith, h.1)) h.0
raw_bits-field true s n little big h =
    ap (λ (l : ℕ). shift_right (shift_left big (linear_start s)) l)
      (sub_uint_lem 64 n (omega (arith, h.1)) (omega arith) ∙ omega (arith, h.1))
    ∙ extract big (linear_start s) (64 - linear_start s - n) n (omega (arith, h.1)) h.0

-- A value that fits is shifted to its place with no bit lost.
no_loss : (v t n : ℕ) → v < 2 ^ n → t + n ≤ 64 → t < 64 → shift_left v t ≡ v * 2 ^ t
no_loss v t n small h k =
    let bound : v * 2 ^ t < 2 ^ 64 = omega (
      arith,
      two_digits (2 ^ t) (2 ^ n) v 0 small (two-pow-pos t),
      two-pow-add t n,
      pow-le-pow_right {n = 2} (omega arith) h,
    ) in
    shift_left_lem v t k ∙ mod-eq_of_lt bound

pub put_bits-own :
    (b : Bool) (s n v : ℕ) (words : ℕ × ℕ)
    → Fits b s n
    → v < 2 ^ n
    → word_of b (put_bits b s n v words) ≡ bit_or (word_of b words) (v * 2 ^ place b s n)
unfolding put_bits place Fits word_of
put_bits-own false s n v (little, big) h small =
    ap (bit_or little) (no_loss v s n small h.1 (omega (arith, h.0, h.1)))
put_bits-own true s n v (little, big) h small = ap (bit_or big) (
    ap (shift_left v) (
      ap (λ (t : ℕ). sub_uint t n)
        (sub_uint_lem 64 (linear_start s) (omega (arith, h.1)) (omega arith))
      ∙ sub_uint_lem (64 - linear_start s) n (omega (arith, h.1)) (omega arith))
    ∙ no_loss v (64 - linear_start s - n) n small (omega (arith, h.1)) (omega (arith, h.0, h.1)))

pub put_bits-other :
    (b : Bool) (s n v : ℕ) (words : ℕ × ℕ)
    → word_of (not b) (put_bits b s n v words) ≡ word_of (not b) words
unfolding put_bits word_of
put_bits-other false s n v (little, big) = refl
put_bits-other true s n v (little, big) = refl

-- The mask keeps the lowest `n` bits.
size_mask-ones : (n : ℕ) → n ≤ 64 → size_mask n ≡ 2 ^ n - 1
unfolding size_mask
size_mask-ones n h = elim (Bool-cases (leb 64 n)) [
  | inl e ↦
      rw (e, size_mask) (ap (λ (t : ℕ). 2 ^ t - 1) {x = 64} {y = n} (omega (arith, leb→le 64 n e)))
  | inr e ↦ rw (e, size_mask) refl
]

pub size_mask_lem : (n v : ℕ) → n ≤ 64 → bit_and v (size_mask n) ≡ v % 2 ^ n
size_mask_lem n v h = ap (bit_and v) (size_mask-ones n h) ∙ bit_and-ones n v

-- What is written is read back, on top of what was there.
pub put_bits-field :
    (b : Bool) (s n v : ℕ) (words : ℕ × ℕ)
    → Fits b s n
    → v < 2 ^ n
    → field (place b s n) n (word_of b (put_bits b s n v words))
      ≡ bit_or (field (place b s n) n (word_of b words)) v
put_bits-field b s n v words h small =
    ap (field (place b s n) n) (put_bits-own b s n v words h small)
    ∙ field-bit_or (place b s n) n (word_of b words) (v * 2 ^ place b s n)
    ∙ ap (bit_or (field (place b s n) n (word_of b words))) (field_own (place b s n) n v small)

-- A field that has no bit in common with the one that is written stays as it is.
pub put_bits-apart :
    (t m : ℕ) (b : Bool) (s n v : ℕ) (words : ℕ × ℕ)
    → Fits b s n
    → v < 2 ^ n
    → (t + m ≤ place b s n) ⊎ (place b s n + n ≤ t)
    → field t m (word_of b (put_bits b s n v words)) ≡ field t m (word_of b words)
put_bits-apart t m b s n v words h small apart =
    ap (field t m) (put_bits-own b s n v words h small)
    ∙ field-bit_or t m (word_of b words) (v * 2 ^ place b s n)
    ∙ ap (bit_or (field t m (word_of b words))) (elim apart [
      | inl below ↦ field_below t m (place b s n) v below
      | inr above ↦ field_above t m (place b s n) n v above small
    ])
    ∙ bit_or-zero (field t m (word_of b words))

pub Fits-size : (b : Bool) (s n : ℕ) → Fits b s n → n ≤ 64
Fits-size b s n h = omega (arith, place-Fits b s n h)

bit_or-bound : (k a b : ℕ) → a < 2 ^ k → b < 2 ^ k → bit_or a b < 2 ^ k
bit_or-bound k a b h h' = omega (
  arith,
  lt-div-mul-add {a = bit_or a b} (two-pow-pos k),
  ap (λ (t : ℕ). t * 2 ^ k)
      (bit_or-div k a b ∙ ap₂ bit_or (div-eq_of_lt h) (div-eq_of_lt h') ∙ zero-bit_or 0),
)

-- The words stay below 2^64.
pub put_bits-bound :
    (b : Bool) (s n v : ℕ) (words : ℕ × ℕ)
    → Fits b s n
    → v < 2 ^ n
    → word_of b words < 2 ^ 64
    → word_of b (put_bits b s n v words) < 2 ^ 64
put_bits-bound b s n v words h small old =
    subst (λ w. w < 2 ^ 64) (sym (put_bits-own b s n v words h small))
      (bit_or-bound 64 (word_of b words) (v * 2 ^ place b s n) old (
        omega (
          arith,
          two_digits (2 ^ place b s n) (2 ^ n) v 0 small (two-pow-pos (place b s n)),
          two-pow-add (place b s n) n,
          pow-le-pow_right {n = 2} (omega arith) (place-Fits b s n h),
        )))

pub word_of_zero : (b : Bool) → word_of b (0, 0) ≡ 0
unfolding word_of
word_of_zero false = refl
word_of_zero true = refl
