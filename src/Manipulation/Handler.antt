-- ===== src/Manipulation/Handler.antt =====
-- `manipulation/service/manipulation_handler.cpp`.
pub mod Valid
pub mod Verdict
pub mod Outcomes
pub mod Rounds
pub mod Selects
pub mod Selection
mod Tests
use cancept.Prelude.{
  ℕ, ◌+◌, ◌*◌, Bool, true, false, List, [], ◌∷◌, ◌++◌, Option, none, some, if◌then◌else◌, get_or,
  set, max, length, replicate,
}
use cancept.Core.Float.{Float}
use cancept.Core.Dto.{DbcCanMessage, DbcCanSignal}
use cancept.Manipulation.Random.{Random}
use cancept.Manipulation.Triggers.{
  SignalMap, signal_map, fires_raw_trigger, fires_dbc_trigger, all_of,
}
use cancept.Manipulation.Effects.{apply_raw_effect, apply_dbc_effect}
use cancept.Manipulation.Types.{
  RawEffect, DbcEffect, RawStrategy, DbcStrategy, insert_strategy, Mutation, latch_mutation,
  no_mutation, RawManipulation, DbcManipulation,
}

-- `Core::IManipulationHandler::PendingInsertion` and `FrameResult`; delays are microseconds.
pub record PendingInsertion (D : Type 0) : Type 0 where
  pub delay_offset : ℕ
  pub message : DbcCanMessage D

pub record FrameResult (D : Type 0) : Type 0 where
  pub drop : Bool
  pub delay_offset : ℕ
  pub insertions : List (PendingInsertion D)

-- The references that `inject` takes for a raw frame.
pub record RawFrame : Type 0 where
  pub id : ℕ
  pub dlc : ℕ
  pub payload : List ℕ

module _ (F : Float) (R : Random F) where
  open F use {Real}
  open R use {Engine, Chance}

  pub record ManipulationHandler : Type 0 where
    pub raw_manipulations : List (RawManipulation Chance)
    pub raw_latched : List Bool
    pub dbc_manipulations : List (DbcManipulation Real Chance)
    pub dbc_latched : List Bool
    pub random : Engine
    pub frame_drop : Bool
    pub frame_max_delay_us : ℕ
    pub frame_insertions : List (PendingInsertion Real)

  unfoldable pub new_handler :
      List (RawManipulation Chance)
      → List (DbcManipulation Real Chance)
      → Engine
      → ManipulationHandler
  new_handler raw dbc rng = record {
    raw_manipulations = raw;
    raw_latched = replicate (length raw) false;
    dbc_manipulations = dbc;
    dbc_latched = replicate (length dbc) false;
    random = rng;
    frame_drop = false;
    frame_max_delay_us = 0;
    frame_insertions = [];
  }

  -- The cases of `DelayedStrategy` and `DropStrategy`, the same for both kinds of frame.
  unfoldable pub delay_frame : ℕ → ManipulationHandler → ManipulationHandler
  delay_frame us h =
      if h.frame_drop then h else record h { frame_max_delay_us = max h.frame_max_delay_us us }

  unfoldable pub drop_frame : ManipulationHandler → ManipulationHandler
  drop_frame h = record h { frame_drop = true; frame_max_delay_us = 0 }

  unfoldable pub apply_raw_effects : List RawEffect → List ℕ → Engine → List ℕ × Engine
  apply_raw_effects [] payload rng = (payload, rng)
  apply_raw_effects (e ∷ es) payload rng =
      let (payload', rng') = apply_raw_effect F R e payload rng in
      apply_raw_effects es payload' rng'

  unfoldable pub apply_raw_strategy :
      RawStrategy → ManipulationHandler → RawFrame → ManipulationHandler × RawFrame
  unfolding delay_frame drop_frame
  apply_raw_strategy (RawStrategy.effect_strategy es) h f =
      let (payload, rng) = apply_raw_effects es f.payload h.random in
      (record h { random = rng }, record f { payload = payload })
  apply_raw_strategy (RawStrategy.delayed_strategy us) h f = (delay_frame us h, f)
  apply_raw_strategy RawStrategy.drop_strategy h f = (drop_frame h, f)

  unfoldable pub latches : Mutation → Bool
  latches latch_mutation = true
  latches no_mutation = false

  -- `triggered`, with the generator after the draws; and the latch, for the entry at index `i`.
  unfoldable pub raw_triggered :
      RawManipulation Chance → ManipulationHandler → RawFrame → Bool × Engine
  raw_triggered m h f =
      all_of F R (λ t. fires_raw_trigger F R t f.id f.dlc f.payload) m.trigger h.random

  unfoldable pub latch_raw : RawManipulation Chance → ℕ → ManipulationHandler → ManipulationHandler
  unfolding latches
  latch_raw m i h =
      if latches m.mutation then record h { raw_latched = set h.raw_latched i true } else h

  -- One round of the loop, at index `i`.
  unfoldable pub inject_raw_at :
      RawManipulation Chance → ℕ → ManipulationHandler → RawFrame → ManipulationHandler × RawFrame
  inject_raw_at m i h f =
      let (triggered, rng) = raw_triggered m h f in
      let drawn : ManipulationHandler = record h { random = rng } in
      if get_or h.raw_latched i false
      then apply_raw_strategy m.strategy h f
      else if triggered
      then apply_raw_strategy m.strategy (latch_raw m i drawn) f
      else (drawn, f)

  unfoldable pub inject_raw_from :
      List (RawManipulation Chance)
      → ℕ
      → ManipulationHandler
      → RawFrame
      → ManipulationHandler × RawFrame
  inject_raw_from [] i h f = (h, f)
  inject_raw_from (m ∷ ms) i h f =
      let (h', f') = inject_raw_at m i h f in inject_raw_from ms (i + 1) h' f'

  unfoldable pub inject_raw : ManipulationHandler → RawFrame → ManipulationHandler × RawFrame
  inject_raw h f = inject_raw_from h.raw_manipulations 0 h f

  unfoldable pub apply_dbc_effects :
      List (DbcEffect Real)
      → SignalMap
      → List (DbcCanSignal Real)
      → Engine
      → List (DbcCanSignal Real) × Engine
  apply_dbc_effects [] m ss rng = (ss, rng)
  apply_dbc_effects (e ∷ es) m ss rng =
      let (ss', rng') = apply_dbc_effect F R e m ss rng in apply_dbc_effects es m ss' rng'

  unfoldable pub apply_dbc_strategy :
      DbcStrategy Real
      → SignalMap
      → ManipulationHandler
      → DbcCanMessage Real
      → ManipulationHandler × DbcCanMessage Real
  unfolding delay_frame drop_frame
  apply_dbc_strategy (DbcStrategy.effect_strategy es) m h message =
      let (ss, rng) = apply_dbc_effects es m message.signal_values h.random in
      (record h { random = rng }, record message { signal_values = ss })
  apply_dbc_strategy (DbcStrategy.delayed_strategy us) m h message = (delay_frame us h, message)
  apply_dbc_strategy DbcStrategy.drop_strategy m h message = (drop_frame h, message)
  apply_dbc_strategy (insert_strategy us inserted) m h message = (
    record h {
      frame_insertions =
          h.frame_insertions
          ++ (record { delay_offset = us; message = elim inserted [ none ↦ message | some x ↦ x ] }
              ∷ []);
    },
    message,
  )

  unfoldable pub dbc_triggered :
      DbcManipulation Real Chance
      → SignalMap
      → ManipulationHandler
      → DbcCanMessage Real
      → Bool × Engine
  dbc_triggered m map h message =
      all_of F R (λ t. fires_dbc_trigger F R t map message.signal_values) m.trigger h.random

  unfoldable pub latch_dbc :
      DbcManipulation Real Chance → ℕ → ManipulationHandler → ManipulationHandler
  unfolding latches
  latch_dbc m i h =
      if latches m.mutation then record h { dbc_latched = set h.dbc_latched i true } else h

  unfoldable pub inject_dbc_at :
      DbcManipulation Real Chance
      → ℕ
      → SignalMap
      → ManipulationHandler
      → DbcCanMessage Real
      → ManipulationHandler × DbcCanMessage Real
  inject_dbc_at m i map h message =
      let (triggered, rng) = dbc_triggered m map h message in
      let drawn : ManipulationHandler = record h { random = rng } in
      if get_or h.dbc_latched i false
      then apply_dbc_strategy m.strategy map h message
      else if triggered
      then apply_dbc_strategy m.strategy map (latch_dbc m i drawn) message
      else (drawn, message)

  unfoldable pub inject_dbc_from :
      List (DbcManipulation Real Chance)
      → ℕ
      → SignalMap
      → ManipulationHandler
      → DbcCanMessage Real
      → ManipulationHandler × DbcCanMessage Real
  inject_dbc_from [] i map h message = (h, message)
  inject_dbc_from (m ∷ ms) i map h message =
      let (h', message') = inject_dbc_at m i map h message in
      inject_dbc_from ms (i + 1) map h' message'

  unfoldable pub inject_dbc :
      ManipulationHandler → DbcCanMessage Real → ManipulationHandler × DbcCanMessage Real
  inject_dbc h message =
      inject_dbc_from h.dbc_manipulations 0 (signal_map message.signal_values) h message

  -- The insertions are moved out, which leaves the vector empty.
  unfoldable pub evaluate : ManipulationHandler → FrameResult Real × ManipulationHandler
  evaluate h = (
    record {
      drop = h.frame_drop;
      delay_offset = h.frame_max_delay_us;
      insertions = h.frame_insertions;
    },
    record h { frame_drop = false; frame_max_delay_us = 0; frame_insertions = [] },
  )
