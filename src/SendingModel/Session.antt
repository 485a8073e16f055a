-- ===== src/SendingModel/Session.antt =====
-- Any sequence of the calls that change the model, with the state that they keep in order.
use cancept.Prelude.{
  ℕ, zero, suc, subst, ◌%◌, ◌^◌, ◌≤◌, ◌<◌, ◌≡◌, refl, sym, ap, min, Bool, true, false, List, [],
  ◌∷◌, Bytes, Option, none, some, arith, length, take, All, bit_and, bit_and-ones,
}
use native.Mathlib.Nat.{mod-lt}
use cancept.Prelude.Dict.{Dict}
use cancept.Prelude.Int.{ℤ, pos, ◌≤ℤ◌}
use cancept.Core.Float.{Float}
use cancept.Core.Dto.{DbcSignalDescription, DbcMessageDescription, DbcConfig}
use cancept.SendingModel.State.{
  Mode, CyclicState, RawState, SendingModel, fill, new_model, definitions, max_can_id, max_can_dlc,
  min_cycle_interval_us, max_cycle_interval_us, update_dbc_config, set_transmission_status,
  set_raw_can_id, set_raw_data, find_message,
}
use cancept.SendingModel.Selection.{
  set_signal_selected, select_signals, select_message, set_message_selected,
}
use cancept.SendingModel.Values.{set_signal_value, set_signal_evaluator, clear_evaluators}
use cancept.SendingModel.Send.{stored_value, build_send_cache}
use cancept.SendingModel.Send.Laws.{length-fill}
use cancept.SendingModel.Tree.{
  ModelIndex, Role, Given, interval, signal_at, set_found, set_item, set_data,
}
use cancept.SendingModel.Session.Calls.{Call}
use cancept.SendingModel.Cache.{IdsDistinct}
use cancept.SendingModel.Range.Stored.{IsWellFormed, StoredWithin, set_signal_value-StoredWithin}
use cancept.SendingModel.Range.Starting.{update_dbc_config-StoredWithin}
use cancept.SendingModel.Range.Items.{set_item-StoredWithin}
pub mod Calls
pub mod Valid

pub masked_small : (i : ℕ) → bit_and i max_can_id ≤ max_can_id
masked_small i = omega (arith, bit_and-ones 11 i, mod-lt i {m = 2048} (omega arith))

pub interval_bounds :
    (z : ℤ) → (min_cycle_interval_us ≤ℤ interval z) × (interval z ≤ℤ max_cycle_interval_us)
unfolding interval
interval_bounds z = ground arith

module _ (F : Float) {E : Type 0} where
  open F use {Real}

  -- A config is well-formed, and an identifier is a `uint16_t`.
  unfoldable pub IsAllowed : Call Real E → Type 0
  unfolding IsWellFormed
  IsAllowed (Call.update_dbc_config config) = IsWellFormed F config.message_definitions
  IsAllowed (Call.set_signal_value i name x) = i < 2 ^ 16
  IsAllowed _ = Unit

module _ {F : Float} {E : Type 0} where
  open F use {Real, lt}

  unfoldable pub perform : Call Real E → SendingModel F E → SendingModel F E
  unfolding set_data update_dbc_config set_transmission_status build_send_cache set_message_selected
      set_signal_selected set_signal_value set_signal_evaluator clear_evaluators set_raw_can_id
      set_raw_data
  perform (Call.set_data i given role) s = (set_data s i given role).1
  perform (Call.update_dbc_config config) s = update_dbc_config config s
  perform (Call.set_transmission_status is_active) s = set_transmission_status is_active s
  perform (Call.build_send_cache eval) s = build_send_cache eval s
  perform (Call.set_message_selected i selected) s = set_message_selected i selected s
  perform (Call.set_signal_selected i name selected) s = set_signal_selected i name selected s
  perform (Call.set_signal_value i name x) s = set_signal_value i name x s
  perform (Call.set_signal_evaluator i name e) s = set_signal_evaluator i name e s
  perform Call.clear_evaluators s = clear_evaluators s
  perform (Call.set_raw_can_id i) s = set_raw_can_id i s
  perform (Call.set_raw_data bytes) s = set_raw_data bytes s

  unfoldable pub perform_all : List (Call Real E) → SendingModel F E → SendingModel F E
  unfolding perform
  perform_all [] s = s
  perform_all (c ∷ cs) s = perform_all cs (perform c s)

  -- The state of the raw frame and of the interval.
  unfoldable pub HasBounds : SendingModel F E → Type 0
  HasBounds s =
      (min_cycle_interval_us ≤ℤ s.cyclic_state.interval_us)
      × (s.cyclic_state.interval_us ≤ℤ max_cycle_interval_us)
      × (s.raw_state.id ≤ max_can_id)
      × (s.raw_state.dlc ≤ max_can_dlc)
      × (length s.raw_state.bytes ≡ max_can_dlc)

  unfoldable pub IsValid : SendingModel F E → Type 0
  unfolding HasBounds StoredWithin IsWellFormed definitions
  IsValid s = HasBounds s × IsWellFormed F (definitions s) × StoredWithin s
