-- ===== src/CanDbc/Raw.antt =====
-- `CanRawHandler`: frames pass through it unchanged, up to their length.
use cancept.Prelude.{
  ℕ, zero, suc, ◌%◌, ◌^◌, List, true, false, length, take, set, get_or, replicate, ltb,
}
use cancept.Prelude.Int.{ℤ}
use cancept.Core.Dto.{RawCanMessage}

-- `for (int i = 0; i < 8 && i < size; i++) data[i] = frame[i]`, from the place `i` on.
unfoldable pub copy_from : ℕ → ℕ → List ℕ → List ℕ → List ℕ
copy_from zero i frame payload = payload
copy_from (suc left) i frame payload = elim (ltb i (length frame)) [
  | true ↦ copy_from left (suc i) frame (set payload i (get_or frame i 0))
  | false ↦ payload
]

-- `frame` is `getFrameData()`.
unfoldable pub parse_received_message : ℕ → List ℕ → ℤ → RawCanMessage
unfolding copy_from
parse_received_message can_id frame timestamp = record {
  receive_time = timestamp;
  payload = copy_from 8 0 frame (replicate 8 0);
  message_id = can_id % 2 ^ 16;
  dlc = length frame % 256;
}

-- The identifier and the data that `sendFunction` is called with.
unfoldable pub handle_send_message : RawCanMessage → ℕ × List ℕ
handle_send_message m = (m.message_id, take m.dlc m.payload)
