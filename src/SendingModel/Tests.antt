-- ===== src/SendingModel/Tests.antt =====
-- Runs of the model of what is sent, on a config of two messages.
use cancept.Prelude.{
  ℕ, ◌%◌, ◌^◌, ◌≡◌, refl, Bool, true, false, ◌&&◌, List, [], ◌∷◌, Bytes, codes, equal, Option, none,
  some, ltb, arith,
}
use cancept.Prelude.Int.{ℤ, pos, negsuc}
use cancept.Core.Sample.{whole}
use cancept.Core.Dto.{
  RawCanMessage, DbcCanSignal, DbcCanMessage, DbcSignalDescription, DbcMessageDescription,
  DbcConfig,
}
use cancept.SendingModel.State.{
  Mode, SendingModel, make_signal_key, new_model, update_dbc_config, definitions, find_message,
  set_raw_can_id, set_raw_data,
}
use cancept.SendingModel.Keys.{make_signal_key-injective}
use cancept.SendingModel.Selection.{set_message_selected, is_signal_selected}
use cancept.SendingModel.Selection.Laws.{message_has, is_signal_selected-set_message_selected}
use cancept.SendingModel.Send.{build_send_cache, for_each_pending_message, for_each_cached_message}
use cancept.SendingModel.Send.Laws.{Carries, raw_sent}
use cancept.SendingModel.Tree.{
  ModelIndex, Role, Given, row_count, column_count, index, parent_of, signal_at, set_data,
}
use cancept.SendingModel.Tree.Laws.{
  top_index, pointer_of, Shows, index-row_count, parent_of-index, set_data-data_at,
}
use cancept.SendingModel.Cache.Coherent.{Edit, edit_all}
use cancept.SendingModel.Session.{IsAllowed, IsValid, perform_all}
use cancept.SendingModel.Session.Valid.{perform_all-new_model}
use cancept.SendingModel.Session.Calls.{Call}

abbrev signal_of : Bytes → ℕ → ℕ → DbcSignalDescription ℤ
signal_of name lo hi = record {
  signal_name = name;
  multiplexer = false;
  multiplexed_by = negsuc 0;
  start_bit = 0;
  signal_size = 8;
  byte_order = false;
  value_type = false;
  factor = pos 1;
  offset = pos 0;
  minimum = pos lo;
  maximum = pos hi;
  unit = [];
  receivers = [];
}

abbrev message_of : ℕ → List (DbcSignalDescription ℤ) → DbcMessageDescription ℤ
message_of i sigs = record {
  message_id = i;
  message_name = codes "M";
  message_size = 8;
  transmitter_name = [];
  signal_descriptions = sigs;
}

abbrev sample : DbcConfig ℤ
sample = record {
  node_definitions = [];
  message_definitions =
      message_of 256 (signal_of (codes "A") 1 9 ∷ signal_of (codes "B") 0 5 ∷ [])
      ∷ message_of 512 (signal_of (codes "A") 3 4 ∷ [])
      ∷ [];
  signal_value_descriptions = [];
  comments = [];
  meta_data = record { version = []; file_name = [] };
}

-- An evaluator gives the number that it is.
abbrev Model : Type 0
Model = SendingModel whole ℤ

loaded : Model
unfolding update_dbc_config new_model set_message_selected
loaded = record (set_message_selected 256 true (update_dbc_config sample new_model)) {
  current_mode = Mode.dbc;
}

abbrev as_dbc : DbcCanMessage ℤ → List ℤ
as_dbc m = values m.signal_values
  where
    values : List (DbcCanSignal ℤ) → List ℤ
    values [] = []
    values (s ∷ ss) = s.value ∷ values ss

abbrev handler : Option (DbcCanMessage ℤ → DbcCanMessage ℤ)
handler = some (λ m. m)

abbrev edits : List (Edit ℤ ℤ)
edits = Edit.value 256 (codes "A") (pos 20) ∷ Edit.evaluator 256 (codes "B") (pos 4) ∷ []

edited : Model
unfolding loaded build_send_cache edit_all
edited = edit_all edits (build_send_cache (λ e. e) loaded)

-- The value is cut to the range, the evaluator is asked, and the message without selection is not sent.
pending_run :
    for_each_pending_message none handler (λ e. e) edited
    ≡ record {
      receive_time = pos 0;
      signal_values =
          record { name = codes "A"; value = pos 9 }
          ∷ record { name = codes "B"; value = pos 4 }
          ∷ [];
      message_id = 256;
    }
      ∷ []
unfolding edited for_each_pending_message
pending_run = refl

calls : List (Call ℤ ℤ)
calls =
    Call.update_dbc_config sample
    ∷ Call.set_signal_value 256 (codes "A") (pos 20)
    ∷ Call.set_raw_data (1 ∷ 2 ∷ [])
    ∷ []

perform_all-new_model_example : IsValid (perform_all {F = whole} {E = ℤ} calls new_model)
unfolding calls IsAllowed equal
perform_all-new_model_example = perform_all-new_model whole ℤ calls irreflexive (
  (
    (omega arith, (omega arith, tt)),
    (((λ e. omega (arith, e)), tt), (tt, tt)),
    ((((refl, tt), (tt, tt)), (refl, (refl, tt))), (((tt, tt), (refl, tt)), tt)),
  ),
  (omega arith, (tt, tt)),
)
  where
    irreflexive : (x : ℤ) → whole.lt x x ≡ false
    irreflexive x = ground arith

is_signal_selected-set_message_selected_example :
    is_signal_selected 256 (codes "B") (set_message_selected 256 false loaded) ≡ false
unfolding loaded message_has find_message definitions equal
is_signal_selected-set_message_selected_example =
    is_signal_selected-set_message_selected 256 256 (codes "B") false loaded

raw_sent_example :
    (m : RawCanMessage) × Carries 2049 (7 ∷ 8 ∷ []) m
    × (for_each_pending_message
          (some (λ x. x))
          none
          (λ e. e)
          (set_raw_data (7 ∷ 8 ∷ []) (set_raw_can_id 2049 (new_model {F = whole} {E = ℤ})))
        ≡ m ∷ [])
    × (for_each_cached_message
          (some (λ x. x))
          none
          Mode.raw
          (λ e. e)
          (set_raw_data (7 ∷ 8 ∷ []) (set_raw_can_id 2049 (new_model {F = whole} {E = ℤ})))
        ≡ m ∷ [])
unfolding new_model
raw_sent_example =
    raw_sent {F = whole} {E = ℤ} (λ x. x) none (λ e. e) 2049 (7 ∷ 8 ∷ []) new_model refl

-- `hasIndex` as it is documented.
abbrev has_index : Model → ℕ → ℕ → Option ModelIndex → Bool
has_index s row column parent = ltb row (row_count s parent) && ltb column (column_count s parent)

abbrev second_message : Option ModelIndex
second_message = some (record { row = 1; column = 0; internal_pointer = 0 })

abbrev its_signal : ModelIndex
its_signal = record { row = 0; column = 0; internal_pointer = 2 }

index-row_count_example : index has_index loaded 0 0 second_message ≡ some its_signal
unfolding loaded row_count pointer_of
index-row_count_example =
    index-row_count {F = whole} {E = ℤ} has_index (λ s row column parent. refl) loaded 0 0
      second_message

parent_of-index_example : parent_of (some its_signal) ≡ top_index second_message
unfolding loaded index row_count column_count
parent_of-index_example =
    parent_of-index {F = whole} {E = ℤ} has_index (λ s row column parent. refl) loaded 0 0
      second_message its_signal refl

abbrev given_seven : Given ℤ
given_seven = record { to_int = pos 0; to_mode = Mode.raw; to_bool = false; to_double = pos 7 }

set_data-data_at_example :
    Shows loaded its_signal given_seven
      (signal_at loaded its_signal)
      (set_data loaded (some its_signal) given_seven Role.signal_value)
set_data-data_at_example = set_data-data_at {F = whole} {E = ℤ} loaded its_signal given_seven 1 refl

make_signal_key-injective_example : (256 % 2 ^ 16 ≡ 65792 % 2 ^ 16) × (codes "A" ≡ codes "A")
unfolding make_signal_key
make_signal_key-injective_example = make_signal_key-injective 256 65792 (codes "A") (codes "A") refl
