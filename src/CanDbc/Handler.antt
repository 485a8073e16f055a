-- ===== src/CanDbc/Handler.antt =====
-- `CanDbcHandler` as a state machine: the table of message descriptions, the frames that it
-- translates and the messages that it encodes. The mutex makes each handler one step.
use cancept.Prelude.{
  ℕ, ◌%◌, ◌^◌, Bool, true, false, List, [], ◌∷◌, ◌++◌, Option, none, some, ltb, ◌==◌, Bytes, length,
  set, get_or, replicate, equal,
}
use cancept.Prelude.Int.{ℤ, pos, negsuc}
use cancept.Core.Float.{Float}
use cancept.Core.Dto.{
  RawCanMessage, DbcCanSignal, DbcCanMessage, DbcSignalDescription, DbcMessageDescription,
  DbcConfig,
}
use cancept.CanDbc.Words.{little_endian_from, big_endian_from, bytes_from}
use cancept.CanDbc.Signal.{parse_received_signal, parse_send_signal}

-- `a == b` of `int`.
unfoldable pub same_int : ℤ → ℤ → Bool
same_int (pos a) (pos b) = a == b
same_int (pos a) (negsuc b) = false
same_int (negsuc a) (pos b) = false
same_int (negsuc a) (negsuc b) = a == b

module _ (F : Float) where
  open F use {Real, of_ℤ, to_ℤ}

  -- `dbcMessages`: 2048 pointers, `none` for the null pointer.
  abbrev pub Table : Type 0
  Table = List (Option (DbcMessageDescription Real))

  unfoldable pub new_table : Table
  new_table = replicate 2048 none

  -- The locals of `parseReceivedMessage`: the values, the signals that are put off, and
  -- `multiplexorValue`.
  pub record Reading : Type 0 where
    pub signal_values : List (DbcCanSignal Real)
    pub multiplexed_signals : List (DbcSignalDescription Real)
    pub multiplexor_value : ℤ

  unfoldable pub add_value : Bytes → Real → Reading → Reading
  add_value name value r = record r {
    signal_values = r.signal_values ++ record { name = name; value = value } ∷ [];
  }

  -- The round of the first loop for one signal.
  unfoldable pub read_signal : ℕ → ℕ → DbcSignalDescription Real → Reading → Reading
  unfolding add_value parse_received_signal same_int
  read_signal little big signal r = elim (same_int signal.multiplexed_by (negsuc 0)) [
    | false ↦ record r { multiplexed_signals = r.multiplexed_signals ++ signal ∷ [] }
    | true ↦ elim signal.multiplexer [
      | true ↦
          let value = to_ℤ (parse_received_signal F signal little big) in
          add_value signal.signal_name (of_ℤ value) (record r { multiplexor_value = value })
      | false ↦ add_value signal.signal_name (parse_received_signal F signal little big) r
    ]
  ]

  unfoldable pub read_signals : ℕ → ℕ → List (DbcSignalDescription Real) → Reading → Reading
  unfolding read_signal
  read_signals little big [] r = r
  read_signals little big (signal ∷ signals) r =
      read_signals little big signals (read_signal little big signal r)

  -- The second loop: the signals whose turn the multiplexor says it is.
  unfoldable pub read_multiplexed : ℕ → ℕ → List (DbcSignalDescription Real) → Reading → Reading
  unfolding add_value parse_received_signal same_int
  read_multiplexed little big [] r = r
  read_multiplexed little big (signal ∷ signals) r =
      read_multiplexed little big signals
        (elim (same_int signal.multiplexed_by r.multiplexor_value) [
          | true ↦ add_value signal.signal_name (parse_received_signal F signal little big) r
          | false ↦ r
        ])

  -- The values of a frame with the data `payload` under a description.
  unfoldable pub read_frame : DbcMessageDescription Real → List ℕ → Reading
  unfolding read_signals read_multiplexed little_endian_from big_endian_from
  read_frame description payload =
      let little = little_endian_from 0 0 payload in
      let big = big_endian_from 0 payload in
      let first =
        read_signals little big description.signal_descriptions
          (record { signal_values = []; multiplexed_signals = []; multiplexor_value = negsuc 0 }) in
      read_multiplexed little big first.multiplexed_signals first

  -- The event that is published for the frame with these fields, if one is. The data, `payload`, has 8 bytes
  -- whatever `len` is.
  unfoldable pub parse_received_message : Table → ℕ → ℕ → List ℕ → ℤ → Option (DbcCanMessage Real)
  unfolding read_frame
  parse_received_message table can_id len payload timestamp = elim (ltb can_id (length table)) [
    | false ↦ none
    | true ↦ elim (get_or table can_id none) [
      | none ↦ none
      | some description ↦ elim (ltb len description.message_size) [
        | true ↦ none
        | false ↦ some (record {
          receive_time = timestamp;
          signal_values = (read_frame description payload).signal_values;
          message_id = can_id % 2 ^ 16;
        })
      ]
    ]
  ]

  -- The inner loop of `handleEncodeMessage`: the first description with the name.
  unfoldable pub encode_signal : List (DbcSignalDescription Real) → Bytes → Real → ℕ × ℕ → ℕ × ℕ
  unfolding parse_send_signal equal
  encode_signal [] name value words = words
  encode_signal (signal ∷ signals) name value words = elim (equal signal.signal_name name) [
    | true ↦ parse_send_signal F signal value words
    | false ↦ encode_signal signals name value words
  ]

  unfoldable pub encode_signals :
      List (DbcSignalDescription Real) → List (DbcCanSignal Real) → ℕ × ℕ → ℕ × ℕ
  unfolding encode_signal
  encode_signals signals [] words = words
  encode_signals signals (v ∷ vs) words =
      encode_signals signals vs (encode_signal signals v.name v.value words)

  -- The last argument is `event.encodedMessage`, the result what is in it afterwards.
  unfoldable pub handle_encode_message : Table → DbcCanMessage Real → RawCanMessage → RawCanMessage
  unfolding encode_signals bytes_from
  handle_encode_message table message encoded = elim (ltb message.message_id (length table)) [
    | false ↦ encoded
    | true ↦ elim (get_or table message.message_id none) [
      | none ↦ encoded
      | some description ↦
          let words = encode_signals description.signal_descriptions message.signal_values (0, 0) in
          record encoded {
            message_id = message.message_id;
            dlc = description.message_size % 256;
            payload = bytes_from 8 words.0 words.1;
          }
    ]
  ]

  -- The loop that frees the old descriptions.
  unfoldable pub clear_table : Table → Table
  clear_table [] = []
  clear_table (d ∷ ds) = none ∷ clear_table ds

  unfoldable pub load_messages : List (DbcMessageDescription Real) → Table → Table
  load_messages [] table = table
  load_messages (m ∷ ms) table = load_messages ms (elim (ltb m.message_id (length table)) [
    | true ↦ set table m.message_id (some m)
    | false ↦ table
  ])

  unfoldable pub handle_new_dbc : DbcConfig Real → Table → Table
  unfolding load_messages clear_table
  handle_new_dbc config table = load_messages config.message_definitions (clear_table table)
