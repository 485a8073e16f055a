-- ===== src/DbcParser/Range.antt =====
-- `DbcParser::calculatePhysicalRange`.
use cancept.Prelude.{ℕ, ◌-◌, ◌^◌, Bool, ◌&&◌, leb, if◌then◌else◌}
use cancept.Prelude.Int.{ℤ, pos, sub_ℕ}
use cancept.Core.Float.{Float}
use cancept.Core.Dto.{DbcSignalDescription}

-- `rawMin` and `rawMax`. Of a signed signal of size 0 the source shifts by 2^32 - 1, which C++
-- leaves undefined.
unfoldable pub raw_min : Bool → ℕ → ℤ
raw_min value_type size =
    if value_type
    then (if leb 64 size then sub_ℕ 0 (2 ^ 63) else sub_ℕ 0 (2 ^ (size - 1)))
    else pos 0

unfoldable pub raw_max : Bool → ℕ → ℕ
raw_max value_type size =
    if value_type
    then (if leb 64 size then 2 ^ 63 - 1 else 2 ^ (size - 1) - 1)
    else (if leb 64 size then 2 ^ 64 - 1 else 2 ^ size - 1)

module _ (F : Float) where
  open F use {Real, eq, add, mul, of_ℤ}

  -- The warning of the last branch changes nothing.
  unfoldable pub calculate_physical_range : DbcSignalDescription Real → DbcSignalDescription Real
  unfolding raw_min raw_max
  calculate_physical_range signal =
      if eq signal.minimum (of_ℤ (pos 0)) && eq signal.maximum (of_ℤ (pos 0))
      then record signal {
        minimum =
            add (mul (of_ℤ (raw_min signal.value_type signal.signal_size)) signal.factor)
              signal.offset;
        maximum =
            add (mul (of_ℤ (pos (raw_max signal.value_type signal.signal_size))) signal.factor)
              signal.offset;
      }
      else signal
