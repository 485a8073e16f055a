-- ===== src/Prelude/Bits.antt =====
-- `|` and `&` of native numbers: both go digit by digit, so a field of bits of `a | b` is the
-- `|` of the fields of `a` and `b`.
use Prim.Native.Nat.{ℕ, zero, suc, ◌+◌, ◌-◌, ◌*◌, ◌/◌, ◌%◌, ◌^◌, ◌≤◌, ◌<◌, min, max}
use Prim.Native.Nat.{bit_and, bit_or, digits, bit_and-bitwise, bit_or-bitwise}
use mathlib.Core.Path.{◌≡◌, refl, sym, ap, ap₂, ◌∙◌}
use mathlib.Core.WellFounded
use native.Mathlib.Nat.{div-one, mod-one}
use native.Mathlib.Omega.{arith}
use cancept.Prelude.Order.{lt_wf}
use cancept.Prelude.Pow.{two-pow-suc, two-pow-pos, div-two-pow-suc, mod-two-pow-suc}

-- The native operations are defined by a recursion on digits that is given its first operand as
-- fuel; half of it is enough for the rest of the digits.
module _ (others : ℕ → ℕ) (digit : ℕ → ℕ → ℕ) where
  abbrev by_digits : ℕ → ℕ → ℕ → ℕ
  by_digits fuel a b = digits others digit fuel a b

  spare_fuel : (a b k l : ℕ) → a ≤ k → a ≤ l → by_digits k a b ≡ by_digits l a b
  spare_fuel zero b zero zero hk hl = refl
  spare_fuel zero b zero (suc l) hk hl = refl
  spare_fuel zero b (suc k) zero hk hl = refl
  spare_fuel zero b (suc k) (suc l) hk hl = refl
  spare_fuel (suc a) b zero l hk hl = elim hk [ ]
  spare_fuel (suc a) b (suc k) zero hk hl = elim hl [ ]
  spare_fuel (suc a) b (suc k) (suc l) hk hl =
      let half : suc a / 2 ≤ a = omega arith in
      omega (arith, spare_fuel (suc a / 2) (b / 2) k l (omega arith) (omega arith))

pub bit_or-digit : (a b : ℕ) → bit_or a b ≡ bit_or (a / 2) (b / 2) * 2 + max (a % 2) (b % 2)
bit_or-digit zero b = omega (arith, bit_or-bitwise 0 (b / 2), bit_or-bitwise 0 b)
bit_or-digit (suc a) b =
    let enough = spare_fuel (λ y. y) max (suc a / 2) (b / 2) a (suc a / 2) (omega arith) in
    omega
      (arith, enough (omega arith), bit_or-bitwise (suc a / 2) (b / 2), bit_or-bitwise (suc a) b)

pub bit_and-digit : (a b : ℕ) → bit_and a b ≡ bit_and (a / 2) (b / 2) * 2 + min (a % 2) (b % 2)
bit_and-digit zero b = omega (arith, bit_and-bitwise 0 (b / 2), bit_and-bitwise 0 b)
bit_and-digit (suc a) b =
    let enough = spare_fuel (λ y. 0) min (suc a / 2) (b / 2) a (suc a / 2) (omega arith) in
    omega
      (arith, enough (omega arith), bit_and-bitwise (suc a / 2) (b / 2), bit_and-bitwise (suc a) b)

pub zero-bit_or : (b : ℕ) → bit_or 0 b ≡ b
zero-bit_or b = bit_or-bitwise 0 b

pub bit_or-zero : (a : ℕ) → bit_or a 0 ≡ a
bit_or-zero a = WellFounded.induction lt_wf {C = λ n. bit_or n 0 ≡ n} a by_digit
  where
    by_digit : (n : ℕ) → ((m : ℕ) → m < n → bit_or m 0 ≡ m) → bit_or n 0 ≡ n
    by_digit zero ih = refl
    by_digit (suc n) ih = omega (arith, bit_or-digit (suc n) 0, ih (suc n / 2) (omega arith))

bit_or_half : (a b : ℕ) → bit_or a b / 2 ≡ bit_or (a / 2) (b / 2)
bit_or_half a b = omega (arith, bit_or-digit a b)

mod-two-pow-suc_half : (a k : ℕ) → a % 2 ^ suc k / 2 ≡ a / 2 % 2 ^ k
mod-two-pow-suc_half a k = omega (arith, mod-two-pow-suc a k)

-- `(a | b) >> k` and `(a | b) & (2^k - 1)`.
pub bit_or-div : (k a b : ℕ) → bit_or a b / 2 ^ k ≡ bit_or (a / 2 ^ k) (b / 2 ^ k)
bit_or-div zero a b = div-one (bit_or a b) ∙ ap₂ bit_or (sym (div-one a)) (sym (div-one b))
bit_or-div (suc k) a b =
    div-two-pow-suc (bit_or a b) k
    ∙ ap (λ (t : ℕ). t / 2 ^ k) (omega (arith, bit_or-digit a b))
    ∙ bit_or-div k (a / 2) (b / 2)
    ∙ ap₂ bit_or (sym (div-two-pow-suc a k)) (sym (div-two-pow-suc b k))

pub bit_or-mod : (k a b : ℕ) → bit_or a b % 2 ^ k ≡ bit_or (a % 2 ^ k) (b % 2 ^ k)
bit_or-mod zero a b = mod-one (bit_or a b) ∙ sym (ap₂ bit_or (mod-one a) (mod-one b))
bit_or-mod (suc k) a b =
    let low = bit_or (a / 2 % 2 ^ k) (b / 2 % 2 ^ k) in
    omega (
      arith,
      mod-two-pow-suc (bit_or a b) k,
      bit_or-digit a b,
      ap (λ (t : ℕ). t % 2 ^ k) (bit_or_half a b),
      bit_or-mod k (a / 2) (b / 2),
      bit_or-digit (a % 2 ^ suc k) (b % 2 ^ suc k),
      ap₂ bit_or (mod-two-pow-suc_half a k) (mod-two-pow-suc_half b k),
      mod-two-pow-suc a k,
      mod-two-pow-suc b k,
    )

bit_and-zero : (a : ℕ) → bit_and a 0 ≡ 0
bit_and-zero a = WellFounded.induction lt_wf {C = λ n. bit_and n 0 ≡ 0} a by_digit
  where
    by_digit : (n : ℕ) → ((m : ℕ) → m < n → bit_and m 0 ≡ 0) → bit_and n 0 ≡ 0
    by_digit zero ih = refl
    by_digit (suc n) ih = omega (arith, bit_and-digit (suc n) 0, ih (suc n / 2) (omega arith))

half_ones : (k : ℕ) → (2 ^ suc k - 1) / 2 ≡ 2 ^ k - 1
half_ones k = omega (arith, two-pow-suc k, two-pow-pos k)

-- `a & (2^k - 1)`.
pub bit_and-ones : (k a : ℕ) → bit_and a (2 ^ k - 1) ≡ a % 2 ^ k
bit_and-ones zero a = bit_and-zero a ∙ sym (mod-one a)
bit_and-ones (suc k) a = omega (
  arith,
  bit_and-digit a (2 ^ suc k - 1),
  two-pow-suc k,
  two-pow-pos k,
  ap (bit_and (a / 2)) (half_ones k),
  bit_and-ones k (a / 2),
  mod-two-pow-suc a k,
)
