-- ===== src/Manipulation/Random.antt =====
-- `std::mt19937` and the distributions that the handlers draw from. The numbers that come out are
-- those of the platform's library, so the generator is a parameter, with the documented ranges.
use cancept.Prelude.{ℕ, ◌<◌, Bool}
use cancept.Core.Float.{Float}

pub record Random (F : Float) : Type 1 where
  pub Engine : Type 0
  -- `float`, of a trigger's probability
  pub Chance : Type 0
  pub le : Chance → Chance → Bool
  -- `std::generate_canonical<float, 10>`
  pub canonical : Engine → Chance × Engine
  -- `std::uniform_int_distribution` over 0 to 7
  pub upto_seven : Engine → ℕ × Engine
  -- `std::uniform_real_distribution(a, b)`
  pub between : F.Real → F.Real → Engine → F.Real × Engine
  pub upto_seven_lt : (e : Engine) → (upto_seven e).0 < 8
