-- ===== src/Manipulation/Effects.antt =====
-- `manipulation/service/manipulation_effect_handler.hpp`.
pub mod RawLaws
pub mod DbcLaws
use cancept.Prelude.{
  ℕ, ◌%◌, ◌^◌, List, [], ◌∷◌, Option, none, some, Bytes, get_elem?, get_or, set, bit_xor,
}
use cancept.Core.Float.{Float, std_clamp}
use cancept.Core.Dto.{DbcCanSignal}
use cancept.Manipulation.Random.{Random}
use cancept.Manipulation.Triggers.{SignalMap, find}
use cancept.Manipulation.Types.{
  RawEffect, bit_flip_effect, random_bit_flip_effect, DbcEffect, value_set_effect, clamp_effect,
  noise_effect,
}

-- `data[byte] ^= (1 << bit)`: the low eight bits go back into the `char`.
unfoldable pub flip : ℕ → ℕ → List ℕ → List ℕ
flip byte bit payload = set payload byte (bit_xor (get_or payload byte 0) (2 ^ bit) % 2 ^ 8)

-- `it->second->value = …` through the pointer.
unfoldable pub write_value :
    {D : Type 0} → ℕ → (D → D) → List (DbcCanSignal D) → List (DbcCanSignal D)
write_value i f ss = elim (get_elem? ss i) [
  | none ↦ ss
  | some s ↦ set ss i (record s { value = f s.value })
]

-- The body behind `if (it != signalMap.end())`.
unfoldable pub at_signal :
    {D : Type 0} → Bytes → (D → D) → SignalMap → List (DbcCanSignal D) → List (DbcCanSignal D)
unfolding find write_value
at_signal k f m ss = elim (find k m) [ none ↦ ss | some i ↦ write_value i f ss ]

module _ (F : Float) (R : Random F) where
  open F use {Real, add, neg}
  open R use {Engine, upto_seven, between}

  unfoldable pub apply_raw_effect : RawEffect → List ℕ → Engine → List ℕ × Engine
  unfolding flip
  apply_raw_effect (bit_flip_effect byte bit) payload rng = (flip byte bit payload, rng)
  apply_raw_effect random_bit_flip_effect payload rng =
      let (byte, rng') = upto_seven rng in
      let (bit, rng'') = upto_seven rng' in (flip byte bit payload, rng'')

  -- The noise is drawn only where the signal is found.
  unfoldable pub apply_dbc_effect :
      DbcEffect Real
      → SignalMap
      → List (DbcCanSignal Real)
      → Engine
      → List (DbcCanSignal Real) × Engine
  unfolding at_signal
  apply_dbc_effect (value_set_effect k v) m ss rng = (at_signal k (λ _. v) m ss, rng)
  apply_dbc_effect (clamp_effect k lo hi) m ss rng =
      (at_signal k (λ v. std_clamp F v lo hi) m ss, rng)
  apply_dbc_effect (noise_effect k amplitude) m ss rng =
      let drawn = between (neg amplitude) amplitude rng in
      (at_signal k (λ v. add v drawn.0) m ss, elim (find k m) [ none ↦ rng | some i ↦ drawn.1 ])
