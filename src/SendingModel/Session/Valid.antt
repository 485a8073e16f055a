-- ===== src/SendingModel/Session/Valid.antt =====
-- Each call keeps the state in order, so any sequence does.
use cancept.Prelude.{
  ℕ, zero, suc, subst, ◌≡◌, refl, sym, min, Bool, false, List, [], ◌∷◌, Bytes, Option, none, some,
  arith, length, take, All,
}
use cancept.Prelude.Dict.{Dict}
use cancept.Core.Float.{Float}
use cancept.Core.Dto.{DbcSignalDescription, DbcMessageDescription}
use cancept.SendingModel.State.{
  SendingModel, new_model, definitions, max_can_dlc, update_dbc_config, set_transmission_status,
  set_raw_can_id, set_raw_data, find_message,
}
use cancept.SendingModel.Selection.{
  set_signal_selected, select_signals, select_message, set_message_selected,
}
use cancept.SendingModel.Values.{set_signal_value, set_signal_evaluator, clear_evaluators}
use cancept.SendingModel.Send.{stored_value, build_send_cache}
use cancept.SendingModel.Send.Laws.{length-fill}
use cancept.SendingModel.Tree.{ModelIndex, Role, Given, signal_at, set_found, set_item, set_data}
use cancept.SendingModel.Session.Calls.{Call}
use cancept.SendingModel.Cache.{IdsDistinct}
use cancept.SendingModel.Range.Stored.{IsWellFormed, StoredWithin, set_signal_value-StoredWithin}
use cancept.SendingModel.Range.Starting.{update_dbc_config-StoredWithin}
use cancept.SendingModel.Range.Items.{set_item-StoredWithin}
use cancept.SendingModel.Session.{
  masked_small, interval_bounds, IsAllowed, IsValid, HasBounds, perform, perform_all,
}

module _ {F : Float} {E : Type 0} where
  open F use {Real, lt}

  -- `setData` on a signal changes the values alone, and the selection changes the names alone.
  set_found-shape :
      (s : SendingModel F E) (o : Option (DbcMessageDescription Real × DbcSignalDescription Real))
      (given : Given Real)
      → (values : Dict Real) × ((set_found s o given).1
          ≡ record s { dynamic_signal_values = values })
  unfolding set_found
  set_found-shape s none given = (s.dynamic_signal_values, refl)
  set_found-shape s (some found) given = (_, refl)

  set_item-shape :
      (s : SendingModel F E) (i : ModelIndex) (given : Given Real)
      → (values : Dict Real) × ((set_item s i given).1
          ≡ record s { dynamic_signal_values = values })
  unfolding set_item
  set_item-shape s i given =
      elim i.internal_pointer
        as (λ p.
          (values : Dict Real) × ((elim p as (λ _. Bool × SendingModel F E) [
            | zero ↦ (false, s)
            | suc q ↦ set_found s (signal_at s i) given
          ]).1
            ≡ record s { dynamic_signal_values = values })) [
              | zero ↦ (s.dynamic_signal_values, refl)
              | suc p ↦ set_found-shape s (signal_at s i) given
            ]

  select_signals-shape :
      (i : ℕ) (b : Bool) (sigs : List (DbcSignalDescription Real)) (s : SendingModel F E)
      → (names : List Bytes) × (select_signals i b sigs s
          ≡ record s { selected_signal_names = names })
  unfolding select_signals set_signal_selected
  select_signals-shape i b [] s = (s.selected_signal_names, refl)
  select_signals-shape i b (sig ∷ sigs) s =
      select_signals-shape i b sigs (set_signal_selected i sig.signal_name b s)

  select_message-shape :
      (i : ℕ) (b : Bool) (o : Option (DbcMessageDescription Real)) (s : SendingModel F E)
      → (names : List Bytes) × (select_message i b o s ≡ record s { selected_signal_names = names })
  unfolding select_message
  select_message-shape i b none s = (s.selected_signal_names, refl)
  select_message-shape i b (some msg) s = select_signals-shape i b msg.signal_descriptions s

  values-IsValid :
      (values : Dict Real) (s t : SendingModel F E)
      → t ≡ record s { dynamic_signal_values = values }
      → IsValid s
      → StoredWithin t
      → IsValid t
  unfolding IsValid HasBounds definitions
  values-IsValid values s t e h stored =
      (subst HasBounds (sym e) h.0, subst (λ u. IsWellFormed F (definitions u)) (sym e) h.1, stored)

  names-IsValid :
      (names : List Bytes) (s t : SendingModel F E)
      → t ≡ record s { selected_signal_names = names }
      → IsValid s
      → IsValid t
  unfolding IsValid HasBounds definitions StoredWithin stored_value
  names-IsValid names s t e h = subst IsValid (sym e) h

  set_data-IsValid :
      (irrefl : (y : Real) → lt y y ≡ false) (i : Option ModelIndex) (given : Given Real)
      (role : Role) (s : SendingModel F E)
      → IsValid s
      → IsValid (set_data s i given role).1
  unfolding set_data IsValid HasBounds StoredWithin IsWellFormed definitions
  set_data-IsValid irrefl i given Role.active_mode s h = h
  set_data-IsValid irrefl i given Role.is_cyclic_enabled s h = h
  set_data-IsValid irrefl i given Role.cycle_interval_us s h =
      let bounds = interval_bounds given.to_int in
      ((bounds.0, bounds.1, h.0.2, h.0.3, h.0.4), h.1, h.2)
  set_data-IsValid irrefl none given Role.signal_value s h = h
  set_data-IsValid irrefl (some i) given Role.signal_value s h =
      let shape = set_item-shape s i given in
      values-IsValid shape.0 s (set_item s i given).1 shape.1 h
        (set_item-StoredWithin i given s irrefl h.1 h.2)
  set_data-IsValid irrefl i given Role.display s h = h
  set_data-IsValid irrefl i given Role.value s h = h
  set_data-IsValid irrefl i given Role.can_id s h = h
  set_data-IsValid irrefl i given Role.is_currently_sending s h = h
  set_data-IsValid irrefl i given Role.other s h = h

  set_message_selected-IsValid :
      (i : ℕ) (b : Bool) (s : SendingModel F E) → IsValid s → IsValid (set_message_selected i b s)
  unfolding set_message_selected
  set_message_selected-IsValid i b s h =
      let shape = select_message-shape i b (find_message i (definitions s)) s in
      names-IsValid shape.0 s (set_message_selected i b s) shape.1 h

  perform-IsValid :
      (c : Call Real E) (s : SendingModel F E)
      → ((y : Real) → lt y y ≡ false)
      → IsAllowed F c
      → IsValid s
      → IsValid (perform c s)
  unfolding perform IsAllowed IsValid HasBounds StoredWithin IsWellFormed definitions stored_value
      update_dbc_config set_transmission_status build_send_cache set_signal_selected
      set_signal_evaluator clear_evaluators set_raw_can_id set_raw_data set_signal_value
  perform-IsValid (Call.set_data i given role) s irrefl a h =
      set_data-IsValid irrefl i given role s h
  perform-IsValid (Call.update_dbc_config config) s irrefl a h =
      (h.0, a, update_dbc_config-StoredWithin config s irrefl a)
  perform-IsValid (Call.set_transmission_status is_active) s irrefl a h = h
  perform-IsValid (Call.build_send_cache eval) s irrefl a h = h
  perform-IsValid (Call.set_message_selected i b) s irrefl a h =
      set_message_selected-IsValid i b s h
  perform-IsValid (Call.set_signal_selected i name b) s irrefl a h = h
  perform-IsValid (Call.set_signal_value i name x) s irrefl a h =
      (h.0, h.1, set_signal_value-StoredWithin i name x s irrefl a h.1 h.2)
  perform-IsValid (Call.set_signal_evaluator i name e) s irrefl a h = h
  perform-IsValid Call.clear_evaluators s irrefl a h = h
  perform-IsValid (Call.set_raw_can_id i) s irrefl a h =
      ((h.0.0, h.0.1, masked_small i, h.0.3, h.0.4), h.1, h.2)
  perform-IsValid (Call.set_raw_data bytes) s irrefl a h = (
    (
      h.0.0,
      h.0.1,
      h.0.2,
      omega arith,
      length-fill max_can_dlc (take (min (length bytes) max_can_dlc) bytes),
    ),
    h.1,
    h.2,
  )

  perform_all-IsValid :
      (cs : List (Call Real E)) (s : SendingModel F E)
      → ((y : Real) → lt y y ≡ false)
      → All (IsAllowed F) cs
      → IsValid s
      → IsValid (perform_all cs s)
  unfolding perform_all All
  perform_all-IsValid [] s irrefl a h = h
  perform_all-IsValid (c ∷ cs) s irrefl a h =
      perform_all-IsValid cs (perform c s) irrefl a.1 (perform-IsValid c s irrefl a.0 h)

module _ (F : Float) (E : Type 0) where
  open F use {Real, lt}

  new_model-IsValid : IsValid {F = F} {E = E} new_model
  unfolding IsValid HasBounds new_model IsWellFormed StoredWithin definitions All IdsDistinct
  new_model-IsValid = ((omega arith, omega arith, omega arith, omega arith, refl), (tt, tt, tt), tt)

  -- Whatever is called on a new model: the interval is between its bounds, the raw frame has a
  -- standard identifier, 8 bytes and a length of at most 8, and every value that is stored for a
  -- signal of the config is neither below the minimum nor above the maximum of the signal. The configs have standard and distinct
  -- identifiers, distinct names within a message and no empty ranges; identifiers of messages are
  -- of 16 bits; no number is less than itself.
  pub perform_all-new_model :
      (cs : List (Call Real E))
      → ((y : Real) → lt y y ≡ false)
      → All (IsAllowed F) cs
      → IsValid (perform_all {F = F} {E = E} cs new_model)
  unfolding IsValid HasBounds
  perform_all-new_model cs irrefl a = perform_all-IsValid cs _ irrefl a new_model-IsValid
