-- ===== src/CanDbc/Sign.antt =====
-- The sign of a raw value: the two shifts of `parseReceivedSignal` give an integer back from its
-- lowest bits.
use cancept.Prelude.{
  ℕ, suc, ◌+◌, ◌-◌, ◌*◌, ◌/◌, ◌%◌, ◌^◌, ◌≤◌, ◌<◌, ◌≡◌, refl, sym, ap, ◌∙◌, Bool, true, false, ltb,
  lt→ltb, arith,
}
use cancept.Prelude.Int.{ℤ, pos, negsuc}
use cancept.Prelude.Pow.{two-pow-pos, two-pow-add, two-pow-suc, div-of_sum, mod-of_sum}
use native.Mathlib.Nat.{mod-eq_of_lt, mul-div_cancel, pow-le-pow_right}
use cancept.CanDbc.Words.{shift_left, shift_signed, to_int64, of_int64}
use cancept.CanDbc.Signal.{with_sign}
use cancept.CanDbc.Fields.{two_digits}
use cancept.CanDbc.Bytes.{shift_left_lem, shift_right_lem}
use cancept.CanDbc.Placement.{sub_uint_lem}

-- The integers that `size` bits hold, as far as `int64_t` does: the code reads an unsigned signal of
-- 64 bits as a signed one.
unfoldable pub InRange : Bool → ℕ → ℤ → Type 0
InRange false size (pos m) = (m < 2 ^ size) × (m < 2 ^ 63)
InRange false size (negsuc m) = ⊥
InRange true size (pos m) = 2 * m < 2 ^ size
InRange true size (negsuc m) = 2 * m < 2 ^ size

pub to_int64_small : (x : ℕ) → x < 2 ^ 63 → to_int64 x ≡ pos x
unfolding to_int64
to_int64_small x h = rw (lt→ltb x (2 ^ 63) h, to_int64) refl

ltb-false : (a b : ℕ) → b ≤ a → ltb a b ≡ false
ltb-false a b h = ground arith

pub to_int64_large : (x : ℕ) → 2 ^ 63 ≤ x → to_int64 x ≡ negsuc (2 ^ 64 - 1 - x)
unfolding to_int64
to_int64_large x h = rw (ltb-false x (2 ^ 63) h, to_int64) refl

shift_signed_small : (x k : ℕ) → x < 2 ^ 63 → k < 64 → shift_signed x k ≡ x / 2 ^ k
unfolding shift_signed
shift_signed_small x k h h' = rw (lt→ltb x (2 ^ 63) h, shift_signed) (shift_right_lem x k h')

shift_signed_large :
    (x k : ℕ) → 2 ^ 63 ≤ x → k < 64 → shift_signed x k ≡ 2 ^ 64 - 1 - (2 ^ 64 - 1 - x) / 2 ^ k
unfolding shift_signed
shift_signed_large x k h h' =
    rw (ltb-false x (2 ^ 63) h, shift_signed)
      (ap (λ (t : ℕ). 2 ^ 64 - 1 - t) (shift_right_lem (2 ^ 64 - 1 - x) k h'))

mul_mono : (a b c : ℕ) → a ≤ b → a * c ≤ b * c
mul_mono a b c h = grind arith

module _ (n k : ℕ) (pos_n : 0 < n) (whole_word : k + n ≡ 64) where
  two_pow_nk : 2 ^ k * 2 ^ n ≡ 2 ^ 64
  two_pow_nk = sym (two-pow-add k n) ∙ ap (λ (t : ℕ). 2 ^ t) whole_word

  -- A value below 2^n moves to the top of the word and back.
  moved_up : (v : ℕ) → v < 2 ^ n → shift_left v k ≡ v * 2 ^ k
  moved_up v h =
      shift_left_lem v k (omega arith)
      ∙ mod-eq_of_lt (omega (arith, two_digits (2 ^ k) (2 ^ n) v 0 h (two-pow-pos k), two_pow_nk))

  half_bound : (m : ℕ) → 2 * m < 2 ^ n → m * 2 ^ k < 2 ^ 63
  half_bound m h = omega (arith, two_digits (2 ^ k) (2 ^ n) (2 * m) 0 h (two-pow-pos k), two_pow_nk)

  pub not_negative : (m : ℕ) → 2 * m < 2 ^ n → shift_signed (shift_left m k) k ≡ m
  not_negative m h =
      ap (λ (t : ℕ). shift_signed t k) (moved_up m (omega arith))
      ∙ shift_signed_small (m * 2 ^ k) k (half_bound m h) (omega arith)
      ∙ mul-div_cancel m (two-pow-pos k)

  -- An even bound is not missed by one.
  even_bound : (m : ℕ) → 2 * m < 2 ^ n → 2 * m + 2 ≤ 2 ^ n
  even_bound m h =
      omega
        (arith, two-pow-suc (n - 1), ap (λ (t : ℕ). 2 ^ t) {x = suc (n - 1)} {y = n} (omega arith))

  pub in_word : (m : ℕ) → 2 * m < 2 ^ n → m < 2 ^ 63
  in_word m h = omega (arith, pow-le-pow_right {n = 2} (omega arith) {i = n} {j = 64} (omega arith))

  low_bits : (m : ℕ) → 2 * m < 2 ^ n → (2 ^ 64 - 1 - m % 2 ^ 64) % 2 ^ n ≡ 2 ^ n - 1 - m
  low_bits m h =
      let top : (2 ^ k - 1) * 2 ^ n + 2 ^ n ≡ 2 ^ 64 = omega (
        arith,
        ap (λ (t : ℕ). t * 2 ^ n) {x = 2 ^ k - 1 + 1} {y = 2 ^ k} (omega (arith, two-pow-pos k)),
        two_pow_nk,
      ) in
      ap (λ (t : ℕ). t % 2 ^ n) {x = 2 ^ 64 - 1 - m % 2 ^ 64}
        {y = (2 ^ k - 1) * 2 ^ n + (2 ^ n - 1 - m)} (omega (arith, in_word m h, top))
      ∙ mod-of_sum n (2 ^ k - 1) (2 ^ n - 1 - m) (omega arith)

  pub negative :
      (m : ℕ) → 2 * m < 2 ^ n → shift_signed (shift_left (2 ^ n - 1 - m) k) k ≡ 2 ^ 64 - 1 - m
  negative m h =
      let d = 2 ^ n - 1 - m in
      let parts : d * 2 ^ k + m * 2 ^ k + 2 ^ k ≡ 2 ^ 64 =
        omega (
          arith,
          ap (λ (t : ℕ). t * 2 ^ k) {x = d + m + 1} {y = 2 ^ n} (omega arith),
          two_pow_nk,
        ) in
      let high : 2 ^ 63 ≤ d * 2 ^ k =
        omega (arith, mul_mono (2 * m + 2) (2 ^ n) (2 ^ k) (even_bound m h), two_pow_nk, parts) in
      ap (λ (t : ℕ). shift_signed t k) (moved_up d (omega arith))
      ∙ shift_signed_large (d * 2 ^ k) k high (omega arith)
      ∙ ap (λ (t : ℕ). 2 ^ 64 - 1 - t / 2 ^ k) {x = 2 ^ 64 - 1 - d * 2 ^ k}
          {y = m * 2 ^ k + (2 ^ k - 1)} (omega (arith, two-pow-pos k))
      ∙ ap (λ (t : ℕ). 2 ^ 64 - 1 - t) (div-of_sum k m (2 ^ k - 1) (omega (arith, two-pow-pos k)))

  -- The sign comes back from the bits that are kept.
  signed_bits :
      (z : ℤ) → InRange true n z → to_int64 (shift_signed (shift_left (of_int64 z % 2 ^ n) k) k) ≡ z
  unfolding InRange of_int64
  signed_bits (pos m) h =
      ap (λ (t : ℕ). to_int64 (shift_signed (shift_left t k) k)) {x = m % 2 ^ 64 % 2 ^ n} {y = m}
        (ap (λ (t : ℕ). t % 2 ^ n) {x = m % 2 ^ 64} {y = m} (omega (arith, in_word m h))
          ∙ mod-eq_of_lt (omega arith))
      ∙ ap to_int64 (not_negative m h)
      ∙ to_int64_small m (in_word m h)
  signed_bits (negsuc m) h =
      ap (λ (t : ℕ). to_int64 (shift_signed (shift_left t k) k)) (low_bits m h)
      ∙ ap to_int64 (negative m h)
      ∙ to_int64_large (2 ^ 64 - 1 - m) (omega (arith, in_word m h))
      ∙ ap negsuc (omega (arith, in_word m h))

-- Both kinds of signals give back the integer whose lowest bits are in the frame.
pub with_sign-bits :
    (value_type : Bool) (n : ℕ) (z : ℤ)
    → 0 < n
    → n ≤ 64
    → InRange value_type n z
    → to_int64 (with_sign value_type n (of_int64 z % 2 ^ n)) ≡ z
unfolding with_sign InRange of_int64
with_sign-bits false n (pos m) pos_n h r =
    ap to_int64
      (ap (λ (t : ℕ). t % 2 ^ n) {x = m % 2 ^ 64} {y = m} (omega (arith, r.1)) ∙ mod-eq_of_lt r.0)
    ∙ to_int64_small m r.1
with_sign-bits false n (negsuc m) pos_n h r = absurd r
with_sign-bits true n z pos_n h r =
    ap (λ (k : ℕ). to_int64 (shift_signed (shift_left (of_int64 z % 2 ^ n) k) k))
      (sub_uint_lem 64 n h (omega arith))
    ∙ signed_bits n (64 - n) pos_n (omega arith) z r
