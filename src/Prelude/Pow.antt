-- ===== src/Prelude/Pow.antt =====
-- Powers of two, quotients and remainders by them at a variable exponent.
use Prim.Native.Nat.{ℕ, zero, suc, ◌+◌, ◌*◌, ◌/◌, ◌%◌, ◌^◌, ◌<◌}
use Prim.Native.Nat.add
use mathlib.Core.Path.{◌≡◌, sym, ap, ◌∙◌}
use native.Mathlib.Omega.{arith}
use native.Mathlib.Nat.{pow-succ', one-le-pow, div-add-mod, div-div-eq-div-mul, div-eq_of_lt-le}

pub two-pow-pos : (k : ℕ) → 0 < 2 ^ k
two-pow-pos k = one-le-pow k 2 (omega arith)

pub two-pow-suc : (k : ℕ) → 2 ^ suc k ≡ 2 * 2 ^ k
two-pow-suc k = pow-succ' 2 k

pub two-pow-add : (a b : ℕ) → 2 ^ (a + b) ≡ 2 ^ a * 2 ^ b
two-pow-add zero b = rw (add.zero b) (omega arith)
two-pow-add (suc a) b =
    rw (add.suc a b, two-pow-suc (a + b), two-pow-add a b, two-pow-suc a) (omega arith)

-- The lowest digit and the rest.
pub div-two-pow-suc : (x k : ℕ) → x / 2 ^ suc k ≡ x / 2 / 2 ^ k
div-two-pow-suc x k = ap (λ (t : ℕ). x / t) (two-pow-suc k) ∙ sym (div-div-eq-div-mul x 2 (2 ^ k))

pub mod-two-pow-suc : (x k : ℕ) → x % 2 ^ suc k ≡ 2 * (x / 2 % 2 ^ k) + x % 2
mod-two-pow-suc x k = omega (
  arith,
  div-add-mod x (2 ^ suc k),
  ap (λ (t : ℕ). t * (x / 2 ^ suc k)) (two-pow-suc k),
  ap (λ (t : ℕ). 2 ^ k * t) (div-two-pow-suc x k),
  div-add-mod (x / 2) (2 ^ k),
)

-- A quotient and a remainder are known from the sum that they make.
module _ (k q r : ℕ) (small : r < 2 ^ k) where
  pub div-of_sum : (q * 2 ^ k + r) / 2 ^ k ≡ q
  div-of_sum = div-eq_of_lt-le (2 ^ k) (omega arith) (grind arith)

  pub mod-of_sum : (q * 2 ^ k + r) % 2 ^ k ≡ r
  mod-of_sum =
      omega (arith, div-add-mod (q * 2 ^ k + r) (2 ^ k), ap (λ (t : ℕ). 2 ^ k * t) div-of_sum)
