-- ===== src/SendingModel/Values.antt =====
-- The values of signals: those that are set, which the cache follows, and the evaluators.
use cancept.Prelude.{ℕ, Bytes, List, [], ◌∷◌, Option, none, some, if◌then◌else◌, ◌==◌, equal}
use cancept.Prelude.Dict.{insert, erase}
use cancept.Core.Float.{Float, std_clamp}
use cancept.Core.Dto.{DbcCanSignal, DbcCanMessage, DbcSignalDescription, DbcMessageDescription}
use cancept.SendingModel.State.{
  SendingModel, make_signal_key, definitions, find_message, find_signal,
}

module _ (F : Float) where
  open F use {Real}

  -- The value within the range of the signal, if the config has the signal.
  unfoldable pub clamp_signal : Real → Option (DbcSignalDescription Real) → Real
  clamp_signal value none = value
  clamp_signal value (some sig) = std_clamp F value sig.minimum sig.maximum

  unfoldable pub clamp_message : Bytes → Real → Option (DbcMessageDescription Real) → Real
  unfolding clamp_signal find_signal
  clamp_message name value none = value
  clamp_message name value (some msg) =
      clamp_signal value (find_signal name msg.signal_descriptions)

  unfoldable pub clamped : ℕ → Bytes → Real → List (DbcMessageDescription Real) → Real
  unfolding find_message clamp_message
  clamped message_id name value msgs = clamp_message name value (find_message message_id msgs)

  -- The loops of `setSignalValue` over the cache: all signals of the name, in the first message of
  -- the identifier.
  unfoldable pub cached_signals : Bytes → Real → List (DbcCanSignal Real) → List (DbcCanSignal Real)
  unfolding equal
  cached_signals name value [] = []
  cached_signals name value (sig ∷ sigs) =
      (if equal sig.name name then record sig { value = value } else sig)
      ∷ cached_signals name value sigs

  unfoldable pub cached_value :
      ℕ → Bytes → Real → List (DbcCanMessage Real) → List (DbcCanMessage Real)
  unfolding cached_signals
  cached_value message_id name value [] = []
  cached_value message_id name value (msg ∷ msgs) =
      let rest = cached_value message_id name value msgs in
      if msg.message_id == message_id
      then record msg { signal_values = cached_signals name value msg.signal_values } ∷ msgs
      else msg ∷ rest

module _ {F : Float} {E : Type 0} where
  open F use {Real}

  unfoldable pub set_signal_value : ℕ → Bytes → Real → SendingModel F E → SendingModel F E
  unfolding make_signal_key clamped definitions insert cached_value
  set_signal_value message_id name value s =
      let result = clamped F message_id name value (definitions s) in
      record s {
        dynamic_signal_values =
            insert (make_signal_key message_id name) result s.dynamic_signal_values;
        message_cache = cached_value F message_id name result s.message_cache;
      }

  -- An empty `std::function` removes the evaluator.
  unfoldable pub set_signal_evaluator : ℕ → Bytes → Option E → SendingModel F E → SendingModel F E
  unfolding make_signal_key insert erase
  set_signal_evaluator message_id name evaluator s =
      let key = make_signal_key message_id name in
      record s {
        signal_evaluators = elim evaluator [
          | none ↦ erase key s.signal_evaluators
          | some e ↦ insert key e s.signal_evaluators
        ];
      }

  unfoldable pub clear_evaluators : SendingModel F E → SendingModel F E
  clear_evaluators s = record s { signal_evaluators = [] }
