-- ===== src/SendingModel/Session/Calls.antt =====
-- The calls that change the model.
use cancept.Prelude.{ℕ, Bool, List, Bytes, Option}
use cancept.Core.Dto.{DbcConfig}
use cancept.SendingModel.Tree.{ModelIndex, Role, Given}

pub data Call (D E : Type 0) : Type 0 where
  set_data : Option ModelIndex → Given D → Role → Call D E
  update_dbc_config : DbcConfig D → Call D E
  set_transmission_status : Bool → Call D E
  build_send_cache : (E → D) → Call D E
  set_message_selected : ℕ → Bool → Call D E
  set_signal_selected : ℕ → Bytes → Bool → Call D E
  set_signal_value : ℕ → Bytes → D → Call D E
  set_signal_evaluator : ℕ → Bytes → Option E → Call D E
  clear_evaluators : Call D E
  set_raw_can_id : ℕ → Call D E
  set_raw_data : List ℕ → Call D E
