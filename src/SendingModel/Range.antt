-- ===== src/SendingModel/Range.antt =====
-- The ranges of the signals: what `std::clamp` does to a value that is in its range, and to others.
use cancept.Prelude.{◌≡◌, refl, Bool, true, false, if◌then◌else◌, Bool-cases, inl, inr}
use cancept.Core.Float.{Float, std_clamp}
use cancept.Core.Dto.{DbcSignalDescription}
pub mod Stored
pub mod Starting
pub mod Items

module _ (F : Float) where
  open F use {Real, lt}

  -- The value is not below the minimum and not above the maximum. This holds of a NaN too, which no
  -- comparison tells from a value in the range and which the code stores unchanged.
  unfoldable pub IsWithin : DbcSignalDescription Real → Real → Type 0
  IsWithin sig v = (lt v sig.minimum ≡ false) × (lt sig.maximum v ≡ false)

  pub std_clamp-IsWithin :
      (sig : DbcSignalDescription Real) (v : Real)
      → IsWithin sig v
      → std_clamp F v sig.minimum sig.maximum ≡ v
  unfolding IsWithin
  std_clamp-IsWithin sig v h = rw (h.0, h.1) refl
