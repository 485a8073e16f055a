-- ===== src/Core/Float.antt =====
-- The C++ types `double` and `float`. The type theory has no floating point, so the type is a
-- parameter with the operations that the program performs on it; nothing is assumed of them here.
-- A theorem that relies on a property of the arithmetic states it as a hypothesis.
use cancept.Prelude.{Bool, if◌then◌else◌, Bytes}
use cancept.Prelude.Int.{ℤ}

pub record Float : Type 1 where
  pub Real : Type 0
  -- `a < b` and `a == b`
  pub lt : Real → Real → Bool
  pub eq : Real → Real → Bool
  pub add : Real → Real → Real
  pub sub : Real → Real → Real
  pub neg : Real → Real
  pub mul : Real → Real → Real
  pub div : Real → Real → Real
  -- a conversion from an integer type, `static_cast<int64_t>(x)`, `std::round(x)`, and
  -- `static_cast<int>(x)`
  pub of_ℤ : ℤ → Real
  pub to_ℤ : Real → ℤ
  pub round : Real → Real
  -- `strtod` on a text that the program has matched before
  pub strtod : Bytes → Real

module _ (F : Float) where
  open F use {Real, lt}

  -- `std::min`, `std::max` and `std::clamp` by their definitions in the C++ standard.
  abbrev pub std_min : Real → Real → Real
  std_min a b = if lt b a then b else a

  abbrev pub std_max : Real → Real → Real
  std_max a b = if lt a b then b else a

  abbrev pub std_clamp : Real → Real → Real → Real
  std_clamp v lo hi = if lt v lo then lo else if lt hi v then hi else v
