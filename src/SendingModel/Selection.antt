-- ===== src/SendingModel/Selection.antt =====
-- What is selected for transmission: single signals, and all signals of a message.
pub mod Laws
use cancept.Prelude.{
  ℕ, zero, suc, ◌+◌, ◌%◌, ◌^◌, min, Bool, true, false, Bytes, List, [], ◌∷◌, ◌++◌, Option, none,
  some, if◌then◌else◌, ◌==◌, equal, length, take, replicate, bit_and,
}
use cancept.Prelude.Int.{ℤ, pos, ltb_ℤ}
use cancept.Prelude.Dict.{Dict, lookup, insert, erase, contains, insert_key, erase_key}
use cancept.Core.Float.{Float, std_clamp}
use cancept.Core.Dto.{
  DbcCanSignal, DbcCanMessage, DbcSignalDescription, DbcMessageDescription, DbcConfig,
}
use cancept.DbcParser.Sections.{to_string}
use cancept.SendingModel.State.{
  SendingModel, make_signal_key, definitions, find_message, find_signal, max_can_id,
}

module _ {F : Float} {E : Type 0} where
  open F use {Real}

  unfoldable pub set_signal_selected : ℕ → Bytes → Bool → SendingModel F E → SendingModel F E
  unfolding make_signal_key insert_key erase_key
  set_signal_selected message_id signal_name selected s =
      let key = make_signal_key message_id signal_name in
      record s {
        selected_signal_names =
            if selected
            then insert_key key s.selected_signal_names
            else erase_key key s.selected_signal_names;
      }

  unfoldable pub is_signal_selected : ℕ → Bytes → SendingModel F E → Bool
  unfolding make_signal_key contains
  is_signal_selected message_id signal_name s =
      contains (make_signal_key message_id signal_name) s.selected_signal_names

  -- The loops of `setMessageSelected` and of `isMessageSelected`.
  unfoldable pub select_signals :
      ℕ → Bool → List (DbcSignalDescription Real) → SendingModel F E → SendingModel F E
  unfolding set_signal_selected
  select_signals message_id selected [] s = s
  select_signals message_id selected (sig ∷ sigs) s =
      select_signals message_id selected sigs
        (set_signal_selected message_id sig.signal_name selected s)

  unfoldable pub are_selected : ℕ → List (DbcSignalDescription Real) → SendingModel F E → Bool
  unfolding is_signal_selected
  are_selected message_id [] s = true
  are_selected message_id (sig ∷ sigs) s =
      let rest = are_selected message_id sigs s in
      if is_signal_selected message_id sig.signal_name s then rest else false

  -- The body of the loop of `setMessageSelected` for the definition that has the identifier.
  unfoldable pub select_message :
      ℕ → Bool → Option (DbcMessageDescription Real) → SendingModel F E → SendingModel F E
  unfolding select_signals
  select_message message_id selected none s = s
  select_message message_id selected (some msg) s =
      select_signals message_id selected msg.signal_descriptions s

  unfoldable pub set_message_selected : ℕ → Bool → SendingModel F E → SendingModel F E
  unfolding find_message definitions select_message
  set_message_selected message_id selected s =
      select_message message_id selected (find_message message_id (definitions s)) s

  -- The body of the loop of `isMessageSelected` likewise.
  unfoldable pub signals_selected : ℕ → List (DbcSignalDescription Real) → SendingModel F E → Bool
  unfolding are_selected
  signals_selected message_id [] s = false
  signals_selected message_id (sig ∷ sigs) s = are_selected message_id (sig ∷ sigs) s

  unfoldable pub message_selected :
      ℕ → Option (DbcMessageDescription Real) → SendingModel F E → Bool
  unfolding signals_selected
  message_selected message_id none s = false
  message_selected message_id (some msg) s = signals_selected message_id msg.signal_descriptions s

  unfoldable pub is_message_selected : ℕ → SendingModel F E → Bool
  unfolding find_message definitions message_selected
  is_message_selected message_id s =
      message_selected message_id (find_message message_id (definitions s)) s
