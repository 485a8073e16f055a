-- ===== src/CanDbc/Fields.antt =====
-- A field of a word: the abstract view of what the shifts of `CanDbcHandler` read and write.
use cancept.Prelude.{
  ℕ, ◌+◌, ◌-◌, ◌*◌, ◌/◌, ◌%◌, ◌^◌, ◌≤◌, ◌<◌, ◌≡◌, sym, ap, ◌∙◌, bit_or, bit_or-div, bit_or-mod,
  arith,
}
use cancept.Prelude.Pow.{two-pow-pos, two-pow-add, div-of_sum, mod-of_sum}
use native.Mathlib.Nat.{
  div-add-mod', mod-lt, mul-div-mul_right, mod-eq_of_lt, div-eq_of_lt, mul-div_cancel, mul-mod_left,
  zero-div, zero-mod, pow-le-pow_right,
}

-- The `n` bits of `w` from the bit `s` on.
unfoldable pub field : ℕ → ℕ → ℕ → ℕ
field s n w = w / 2 ^ s % 2 ^ n

pub two_digits : (A B d r : ℕ) → d < B → r < A → d * A + r < A * B
two_digits A B d r h k = grind arith

pub mod_two_digits : (a b x : ℕ) → x % 2 ^ (a + b) ≡ x / 2 ^ a % 2 ^ b * 2 ^ a + x % 2 ^ a
mod_two_digits a b x =
    let q = x / 2 ^ a in
    let low : q % 2 ^ b * 2 ^ a + x % 2 ^ a < 2 ^ (a + b) = omega (
      arith,
      two-pow-add a b,
      two_digits (2 ^ a) (2 ^ b) (q % 2 ^ b) (x % 2 ^ a) (mod-lt q (two-pow-pos b))
          (mod-lt x (two-pow-pos a)),
    ) in
    let parts : x ≡ q / 2 ^ b * 2 ^ (a + b) + (q % 2 ^ b * 2 ^ a + x % 2 ^ a) = omega (
      arith,
      div-add-mod' x (2 ^ a),
      ap (λ (t : ℕ). t * 2 ^ a) (div-add-mod' q (2 ^ b)),
      ap (λ (t : ℕ). q / 2 ^ b * t) (two-pow-add a b),
    ) in
    ap (λ (t : ℕ). t % 2 ^ (a + b)) parts
    ∙ mod-of_sum (a + b) (q / 2 ^ b) (q % 2 ^ b * 2 ^ a + x % 2 ^ a) low

pub mod-div : (a b x : ℕ) → x % 2 ^ (a + b) / 2 ^ a ≡ x / 2 ^ a % 2 ^ b
mod-div a b x =
    ap (λ (t : ℕ). t / 2 ^ a) (mod_two_digits a b x)
    ∙ div-of_sum a (x / 2 ^ a % 2 ^ b) (x % 2 ^ a) (mod-lt x (two-pow-pos a))

pub mul-div-two_pow : (k s x : ℕ) → x * 2 ^ k / 2 ^ (k + s) ≡ x / 2 ^ s
mul-div-two_pow k s x =
    ap (λ (t : ℕ). x * 2 ^ k / t) (two-pow-add k s ∙ omega arith)
    ∙ mul-div-mul_right {m = 2 ^ k} x (2 ^ s) (two-pow-pos k)

pub field-bit_or : (s n a b : ℕ) → field s n (bit_or a b) ≡ bit_or (field s n a) (field s n b)
unfolding field
field-bit_or s n a b =
    ap (λ (t : ℕ). t % 2 ^ n) (bit_or-div s a b) ∙ bit_or-mod n (a / 2 ^ s) (b / 2 ^ s)

pub field_zero : (s n : ℕ) → field s n 0 ≡ 0
unfolding field
field_zero s n = ap (λ (t : ℕ). t % 2 ^ n) (zero-div (2 ^ s)) ∙ zero-mod (2 ^ n)

pub field_own : (s n v : ℕ) → v < 2 ^ n → field s n (v * 2 ^ s) ≡ v
unfolding field
field_own s n v h = ap (λ (t : ℕ). t % 2 ^ n) (mul-div_cancel v (two-pow-pos s)) ∙ mod-eq_of_lt h

mul-two_pow : (v s d : ℕ) → v * 2 ^ (s + d) ≡ v * 2 ^ d * 2 ^ s
mul-two_pow v s d = omega (arith, ap (λ (t : ℕ). v * t) (two-pow-add s d))

div-two_pow : (v s d : ℕ) → v * 2 ^ (s + d) / 2 ^ s ≡ v * 2 ^ d
div-two_pow v s d =
    ap (λ (t : ℕ). t / 2 ^ s) (mul-two_pow v s d) ∙ mul-div_cancel (v * 2 ^ d) (two-pow-pos s)

-- A value written above a field, or below it, leaves it empty.
pub field_below : (s n t v : ℕ) → s + n ≤ t → field s n (v * 2 ^ t) ≡ 0
unfolding field
field_below s n t v h =
    let d = t - s in
    let place : s + d ≡ t = omega arith in
    let rest : n + (d - n) ≡ d = omega arith in
    ap (λ (u : ℕ). v * 2 ^ u / 2 ^ s % 2 ^ n) (sym place)
    ∙ ap (λ (u : ℕ). u % 2 ^ n) (div-two_pow v s d)
    ∙ ap (λ (u : ℕ). v * 2 ^ u % 2 ^ n) (sym rest)
    ∙ ap (λ (u : ℕ). u % 2 ^ n) (mul-two_pow v n (d - n))
    ∙ mul-mod_left (v * 2 ^ (d - n)) (2 ^ n)

pub field_above : (s n t m v : ℕ) → t + m ≤ s → v < 2 ^ m → field s n (v * 2 ^ t) ≡ 0
unfolding field
field_above s n t m v h small =
    let lt : v * 2 ^ t < 2 ^ s = omega (
      arith,
      two_digits (2 ^ t) (2 ^ m) v 0 small (two-pow-pos t),
      two-pow-add t m,
      pow-le-pow_right {n = 2} (omega arith) h,
    ) in
    ap (λ (u : ℕ). u % 2 ^ n) (div-eq_of_lt lt) ∙ zero-mod (2 ^ n)
