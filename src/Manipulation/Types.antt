-- ===== src/Manipulation/Types.antt =====
-- `manipulation/types`: triggers, effects, strategies and mutations. `D` is `double`, `C` is
-- `float`.
use cancept.Prelude.{ℕ, Bool, List, Option, Bytes}
use cancept.Core.Dto.{DbcCanMessage}

pub data RawTrigger (C : Type 0) : Type 0 where
  id_trigger : ℕ → RawTrigger C
  dlc_trigger : ℕ → RawTrigger C
  random_trigger : C → RawTrigger C

-- The flag of a threshold trigger is `isGreater`.
pub data DbcTrigger (D C : Type 0) : Type 0 where
  signal_name_trigger : Bytes → DbcTrigger D C
  signal_threshold_trigger : Bytes → D → Bool → DbcTrigger D C
  random_trigger : C → DbcTrigger D C

-- A byte index and a bit index, both below 8.
pub data RawEffect : Type 0 where
  bit_flip_effect : ℕ → ℕ → RawEffect
  random_bit_flip_effect : RawEffect

pub data DbcEffect (D : Type 0) : Type 0 where
  value_set_effect : Bytes → D → DbcEffect D
  clamp_effect : Bytes → D → D → DbcEffect D
  noise_effect : Bytes → D → DbcEffect D

pub data RawStrategy : Type 0 where
  effect_strategy : List RawEffect → RawStrategy
  delayed_strategy : ℕ → RawStrategy
  drop_strategy : RawStrategy

pub data DbcStrategy (D : Type 0) : Type 0 where
  effect_strategy : List (DbcEffect D) → DbcStrategy D
  delayed_strategy : ℕ → DbcStrategy D
  drop_strategy : DbcStrategy D
  insert_strategy : ℕ → Option (DbcCanMessage D) → DbcStrategy D

pub data Mutation : Type 0 where
  no_mutation latch_mutation : Mutation

pub record RawManipulation (C : Type 0) : Type 0 where
  pub trigger : List (RawTrigger C)
  pub strategy : RawStrategy
  pub mutation : Mutation

pub record DbcManipulation (D C : Type 0) : Type 0 where
  pub trigger : List (DbcTrigger D C)
  pub strategy : DbcStrategy D
  pub mutation : Mutation
