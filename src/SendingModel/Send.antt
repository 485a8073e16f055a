-- ===== src/SendingModel/Send.antt =====
-- What is handed over to be sent: built for one transmission, or from the cache that a repeated
-- transmission uses. A handler is an empty or a callable `std::function`; the result is the list of
-- the handlers' calls. `eval` is what the evaluators give during the pass.
pub mod Laws
use cancept.Prelude.{ℕ, Bool, true, false, List, [], ◌∷◌, ◌++◌, Option, none, some, Bytes, bit_and}
use cancept.Prelude.Int.{pos}
use cancept.Prelude.Dict.{Dict, lookup}
use cancept.Core.Float.{Float, std_clamp}
use cancept.Core.Dto.{
  RawCanMessage, DbcCanSignal, DbcCanMessage, DbcSignalDescription, DbcMessageDescription,
}
use cancept.SendingModel.State.{
  Mode, raw, dbc, RawState, SendingModel, make_signal_key, fill, max_can_dlc, max_can_id,
  definitions,
}
use cancept.SendingModel.Selection.{is_signal_selected}

abbrev pub call {ℓ} : {M A : Type ℓ} → Option (M → A) → M → List A
call none m = []
call (some handler) m = handler m ∷ []

unfoldable pub raw_message : RawState → RawCanMessage
unfolding fill
raw_message s = record {
  receive_time = pos 0;
  payload = fill max_can_dlc s.bytes;
  message_id = bit_and s.id max_can_id;
  dlc = s.dlc;
}

-- A message is handed over only if a signal of it is selected.
unfoldable pub as_message : {D : Type 0} → ℕ → List (DbcCanSignal D) → List (DbcCanMessage D)
as_message message_id [] = []
as_message message_id (sig ∷ sigs) =
    record {
      receive_time = pos 0;
      signal_values = sig ∷ sigs;
      message_id = bit_and message_id max_can_id;
    }
    ∷ []

unfoldable pub push_if : {A : Type 0} → Bool → A → List A → List A
push_if true x xs = x ∷ xs
push_if false x xs = xs

-- The two nested loops that `forEachPendingMessage` and `buildSendCache` share: the messages with a
-- selected signal, and those signals with their values.
module _ {D : Type 0} (chosen : ℕ → Bytes → Bool) (value_of : ℕ → DbcSignalDescription D → D) where
  unfoldable pub chosen_signals : ℕ → List (DbcSignalDescription D) → List (DbcCanSignal D)
  unfolding push_if
  chosen_signals message_id [] = []
  chosen_signals message_id (sig ∷ sigs) =
      push_if (chosen message_id sig.signal_name)
        (record { name = sig.signal_name; value = value_of message_id sig })
        (chosen_signals message_id sigs)

  unfoldable pub chosen_message : DbcMessageDescription D → List (DbcCanMessage D)
  unfolding chosen_signals as_message
  chosen_message msg =
      as_message msg.message_id (chosen_signals msg.message_id msg.signal_descriptions)

  unfoldable pub chosen_messages : List (DbcMessageDescription D) → List (DbcCanMessage D)
  unfolding chosen_message
  chosen_messages [] = []
  chosen_messages (msg ∷ msgs) = chosen_message msg ++ chosen_messages msgs

abbrev pub call_all {ℓ} : {M A : Type ℓ} → Option (M → A) → List M → List A
call_all handler [] = []
call_all handler (m ∷ ms) = call handler m ++ call_all handler ms

module _ {D E : Type 0} where
  unfoldable pub refresh_signals :
      (E → D) → Dict E → ℕ → List (DbcCanSignal D) → List (DbcCanSignal D)
  unfolding make_signal_key lookup
  refresh_signals eval evaluators message_id [] = []
  refresh_signals eval evaluators message_id (sig ∷ sigs) =
      elim (lookup (make_signal_key message_id sig.name) evaluators) [
        | none ↦ sig
        | some e ↦ record sig { value = eval e }
      ]
      ∷ refresh_signals eval evaluators message_id sigs

  unfoldable pub refresh_messages :
      (E → D) → Dict E → List (DbcCanMessage D) → List (DbcCanMessage D)
  unfolding refresh_signals
  refresh_messages eval evaluators [] = []
  refresh_messages eval evaluators (msg ∷ msgs) =
      record msg {
        signal_values = refresh_signals eval evaluators msg.message_id msg.signal_values;
      }
      ∷ refresh_messages eval evaluators msgs

module _ {F : Float} {E : Type 0} where
  open F use {Real}

  abbrev pub selected : SendingModel F E → ℕ → Bytes → Bool
  selected s message_id name = is_signal_selected message_id name s

  -- What is set for a signal, and what an evaluator gives in place of it.
  unfoldable pub stored_value : SendingModel F E → ℕ → DbcSignalDescription Real → Real
  unfolding make_signal_key lookup
  stored_value s message_id sig =
      elim (lookup (make_signal_key message_id sig.signal_name) s.dynamic_signal_values) [
        | some v ↦ v
        | none ↦ sig.minimum
      ]

  unfoldable pub current_value :
      (E → Real) → SendingModel F E → ℕ → DbcSignalDescription Real → Real
  unfolding make_signal_key lookup stored_value
  current_value eval s message_id sig =
      elim (lookup (make_signal_key message_id sig.signal_name) s.signal_evaluators) [
        | some e ↦ eval e
        | none ↦ stored_value s message_id sig
      ]

  unfoldable pub pending_value :
      (E → Real) → SendingModel F E → ℕ → DbcSignalDescription Real → Real
  unfolding current_value
  pending_value eval s message_id sig =
      std_clamp F (current_value eval s message_id sig) sig.minimum sig.maximum

  unfoldable pub for_each_pending_message :
      {A : Type 0}
      → Option (RawCanMessage → A)
      → Option (DbcCanMessage Real → A)
      → (E → Real)
      → SendingModel F E
      → List A
  unfolding raw_message chosen_messages pending_value definitions is_signal_selected
  for_each_pending_message raw_handler dbc_handler eval s = elim (s.current_mode) [
    | Mode.raw ↦ call raw_handler (raw_message s.raw_state)
    | Mode.dbc ↦
        call_all dbc_handler (chosen_messages (selected s) (pending_value eval s) (definitions s))
  ]

  unfoldable pub seed_value : (E → Real) → SendingModel F E → ℕ → DbcSignalDescription Real → Real
  unfolding make_signal_key lookup stored_value
  seed_value eval s message_id sig =
      elim (lookup (make_signal_key message_id sig.signal_name) s.signal_evaluators) [
        | some e ↦ std_clamp F (eval e) sig.minimum sig.maximum
        | none ↦ stored_value s message_id sig
      ]

  unfoldable pub build_send_cache : (E → Real) → SendingModel F E → SendingModel F E
  unfolding chosen_messages seed_value definitions is_signal_selected
  build_send_cache eval s = record s {
    message_cache = elim (s.current_mode) [
      | Mode.raw ↦ []
      | Mode.dbc ↦ chosen_messages (selected s) (seed_value eval s) (definitions s)
    ];
  }

  -- Without evaluators nothing is refreshed.
  unfoldable pub for_each_cached_message :
      {A : Type 0}
      → Option (RawCanMessage → A)
      → Option (DbcCanMessage Real → A)
      → Mode
      → (E → Real)
      → SendingModel F E
      → List A
  unfolding raw_message refresh_messages
  for_each_cached_message raw_handler dbc_handler mode eval s = elim mode [
    | Mode.raw ↦ call raw_handler (raw_message s.raw_state)
    | Mode.dbc ↦ elim (s.signal_evaluators) [
      | [] ↦ call_all dbc_handler s.message_cache
      | e ∷ es ↦ call_all dbc_handler (refresh_messages eval (e ∷ es) s.message_cache)
    ]
  ]

  -- The signals `requestSendRaw` and `requestSendDbc`, for the device "".
  unfoldable pub transmit_current :
      {A : Type 0}
      → (RawCanMessage → A)
      → (DbcCanMessage Real → A)
      → (E → Real)
      → SendingModel F E
      → List A
  unfolding for_each_pending_message
  transmit_current request_send_raw request_send_dbc =
      for_each_pending_message (some request_send_raw) (some request_send_dbc)
