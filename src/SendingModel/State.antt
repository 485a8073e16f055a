-- ===== src/SendingModel/State.antt =====
-- `sending/model/sending_model.cpp`: what is to be sent, raw or by the DBC file, and the item model
-- that the views show it by. This file has the state and the operations on the selection, the values
-- and the raw frame. The signals that tell views of a change have no effect on the state and are left
-- out. The type `E` is that of the evaluators, `std::function<double()>`.
use cancept.Prelude.{
  ℕ, zero, suc, ◌%◌, ◌^◌, min, Bool, false, Bytes, List, [], ◌∷◌, ◌++◌, Option, none, some,
  if◌then◌else◌, ◌==◌, equal, length, take, replicate, bit_and,
}
use cancept.Prelude.Int.{ℤ, pos}
use cancept.Prelude.Dict.{Dict, insert}
use cancept.Core.Float.{Float}
use cancept.Core.Dto.{DbcCanMessage, DbcSignalDescription, DbcMessageDescription, DbcConfig}
use cancept.DbcParser.Sections.{to_string}

-- `sending/constants.hpp`
abbrev pub max_can_dlc : ℕ
max_can_dlc = 8

abbrev pub max_can_id : ℕ
max_can_id = 2047

abbrev pub min_cycle_interval_us : ℤ
min_cycle_interval_us = pos 1

abbrev pub max_cycle_interval_us : ℤ
max_cycle_interval_us = pos 10000000

pub data Mode : Type 0 where
  raw : Mode
  dbc : Mode

pub record CyclicState : Type 0 where
  pub is_enabled : Bool
  pub interval_us : ℤ
  pub is_sending : Bool

pub record RawState : Type 0 where
  pub id : ℕ
  pub bytes : List ℕ
  pub dlc : ℕ

pub record SendingModel (F : Float) (E : Type 0) : Type 0 where
  pub current_mode : Mode
  pub message_cache : List (DbcCanMessage (Float.Real F))
  pub cyclic_state : CyclicState
  pub raw_state : RawState
  pub dynamic_signal_values : Dict (Float.Real F)
  pub selected_signal_names : List Bytes
  pub signal_evaluators : Dict E
  pub current_dbc : Option (DbcConfig (Float.Real F))

-- The identifier is passed as a `uint16_t`, also where it is the `uint` of a description.
unfoldable pub make_signal_key : ℕ → Bytes → Bytes
unfolding to_string
make_signal_key message_id signal_name = to_string (message_id % 2 ^ 16) ++ b':' ∷ signal_name

-- The first `n` bytes, with zeros behind them where there are fewer.
unfoldable pub fill : ℕ → List ℕ → List ℕ
fill zero bytes = []
fill (suc n) [] = 0 ∷ fill n []
fill (suc n) (b ∷ bytes) = b ∷ fill n bytes

module _ {D : Type 0} where
  -- The loops of `updateDbcConfig` over the signals and the messages.
  unfoldable pub start_signals : ℕ → List (DbcSignalDescription D) → Dict D → Dict D
  unfolding make_signal_key insert
  start_signals message_id [] values = values
  start_signals message_id (sig ∷ sigs) values =
      start_signals message_id sigs
        (insert (make_signal_key message_id sig.signal_name) sig.minimum values)

  unfoldable pub start_values : List (DbcMessageDescription D) → Dict D → Dict D
  unfolding start_signals
  start_values [] values = values
  start_values (msg ∷ msgs) values =
      start_values msgs (start_signals msg.message_id msg.signal_descriptions values)

module _ {D : Type 0} where
  -- The first definition with an identifier, at which a loop over the definitions ends.
  unfoldable pub find_message :
      ℕ → List (DbcMessageDescription D) → Option (DbcMessageDescription D)
  find_message message_id [] = none
  find_message message_id (msg ∷ msgs) =
      let rest = find_message message_id msgs in
      if msg.message_id == message_id then some msg else rest

  unfoldable pub find_signal :
      Bytes → List (DbcSignalDescription D) → Option (DbcSignalDescription D)
  unfolding equal
  find_signal name [] = none
  find_signal name (sig ∷ sigs) =
      let rest = find_signal name sigs in if equal sig.signal_name name then some sig else rest

module _ {F : Float} {E : Type 0} where
  open F use {Real}

  unfoldable pub new_model : SendingModel F E
  new_model = record {
    current_mode = raw;
    message_cache = [];
    cyclic_state = record { is_enabled = false; interval_us = pos 1000; is_sending = false };
    raw_state = record { id = 0; bytes = replicate 8 0; dlc = 0 };
    dynamic_signal_values = [];
    selected_signal_names = [];
    signal_evaluators = [];
    current_dbc = none;
  }

  unfoldable pub update_dbc_config : DbcConfig Real → SendingModel F E → SendingModel F E
  unfolding start_values
  update_dbc_config config s = record s {
    current_dbc = some config;
    dynamic_signal_values = start_values config.message_definitions [];
    selected_signal_names = [];
    signal_evaluators = [];
  }

  unfoldable pub set_transmission_status : Bool → SendingModel F E → SendingModel F E
  set_transmission_status is_active s = record s {
    cyclic_state = record (s.cyclic_state) { is_sending = is_active };
  }

  -- The definitions of the config, none if there is no config.
  unfoldable pub definitions : SendingModel F E → List (DbcMessageDescription Real)
  definitions s = elim (s.current_dbc) [ none ↦ [] | some config ↦ config.message_definitions ]

  unfoldable pub set_raw_can_id : ℕ → SendingModel F E → SendingModel F E
  set_raw_can_id can_id s = record s {
    raw_state = record (s.raw_state) { id = bit_and can_id max_can_id };
  }

  unfoldable pub set_raw_data : List ℕ → SendingModel F E → SendingModel F E
  unfolding fill
  set_raw_data bytes s =
      let dlc = min (length bytes) max_can_dlc in
      record s {
        raw_state = record (s.raw_state) { dlc = dlc; bytes = fill max_can_dlc (take dlc bytes) };
      }
