-- ===== src/CanDbc/Tests.antt =====
-- Instances of the theorems on frames, and the data for them.
use cancept.Prelude.{
  ℕ, ◌*◌, ◌^◌, ◌≡◌, ◌≢◌, refl, Bool, true, false, List, [], ◌∷◌, ◌++◌, none, some, All, Bytes,
  codes, equal, length, get_or, inl, inr, arith,
}
use cancept.Prelude.Int.{ℤ, pos, negsuc}
use cancept.Core.Dto.{
  RawCanMessage, DbcCanSignal, DbcCanMessage, DbcSignalDescription, DbcMessageDescription,
  DbcConfig,
}
use cancept.Core.Sample.{whole}
use cancept.CanDbc.Words.{little_endian_from, big_endian_from}
use cancept.CanDbc.Words.{to_int64}
use cancept.CanDbc.Signal.{raw_bits, with_sign, linear_start, raw_of, parse_received_signal}
use cancept.CanDbc.Handler.{Table, handle_encode_message, handle_new_dbc, read_frame}
use cancept.CanDbc.Placement.{Fits, place}
use cancept.CanDbc.Sign.{InRange}
use cancept.CanDbc.Encode.{IsFit, Alongside, find_signal}
use cancept.CanDbc.RoundTrip.{parse_received_signal-handle_encode_message}
use cancept.CanDbc.Reading.{first_values, selected_values, multiplexor, put_off, read_frame_lem}
use cancept.CanDbc.Raw.{parse_received_message, handle_send_message}
use cancept.CanDbc.Forward.{handle_send_message-parse_received_message}
use cancept.CanDbc.Range.{WithinRange, raw_bits-WithinRange}
use cancept.CanDbc.Loading.{last_with, handle_new_dbc_lem}

abbrev signal_of : Bytes → Bool → ℤ → ℕ → ℕ → Bool → DbcSignalDescription ℤ
signal_of name multiplexer multiplexed_by start size signed = record {
  signal_name = name;
  multiplexer = multiplexer;
  multiplexed_by = multiplexed_by;
  start_bit = start;
  signal_size = size;
  byte_order = true;
  value_type = signed;
  factor = pos 2;
  offset = pos 10;
  minimum = negsuc 99;
  maximum = pos 400;
  unit = [];
  receivers = [];
}

-- Both are big endian: the second byte, and the lower half of the first.
abbrev heat : DbcSignalDescription ℤ
heat = signal_of (codes "heat") false (negsuc 0) 15 8 true

abbrev gear : DbcSignalDescription ℤ
gear = signal_of (codes "gear") true (negsuc 0) 3 4 false

abbrev engine : DbcMessageDescription ℤ
engine = record {
  message_id = 1;
  message_name = codes "engine";
  message_size = 8;
  transmitter_name = [];
  signal_descriptions = gear ∷ heat ∷ [];
}

abbrev engine_table : Table whole
engine_table = none ∷ some engine ∷ none ∷ []

abbrev no_frame : RawCanMessage
no_frame = record { receive_time = pos 0; payload = []; message_id = 0; dlc = 0 }

abbrev heat_value : DbcCanSignal ℤ
heat_value = record { name = codes "heat"; value = negsuc 39 }

abbrev gear_value : DbcCanSignal ℤ
gear_value = record { name = codes "gear"; value = pos 16 }

heat_named : find_signal whole (gear ∷ heat ∷ []) (codes "heat") ≡ some heat
unfolding find_signal equal
heat_named = refl

heat_fits : IsFit whole heat
unfolding Fits linear_start
heat_fits = (omega arith, omega arith)

beside_heat : All (Alongside whole heat) (gear ∷ heat ∷ [])
unfolding All Alongside Fits place linear_start
beside_heat =
    (((omega arith, omega arith), refl, inr (inl (omega arith))), ((heat_fits, refl, inl refl), tt))

gear_only : All (λ (u : DbcCanSignal ℤ). u.name ≢ codes "heat") (gear_value ∷ [])
unfolding All
gear_only = (λ e. ground arith, tt)

heat-InRange : InRange true 8 (raw_of whole heat (negsuc 39))
unfolding InRange raw_of
heat-InRange = omega arith

parse_received_signal-handle_encode_message_example :
    let message : DbcCanMessage ℤ = record {
      receive_time = pos 0;
      signal_values = gear_value ∷ heat_value ∷ [];
      message_id = 1;
    } in
    let payload = (handle_encode_message whole engine_table message no_frame).payload in
    parse_received_signal whole heat (little_endian_from 0 0 payload) (big_endian_from 0 payload)
    ≡ whole.add (whole.mul (whole.of_ℤ (raw_of whole heat (negsuc 39))) (pos 2)) (pos 10)
unfolding All
parse_received_signal-handle_encode_message_example =
    parse_received_signal-handle_encode_message whole engine_table engine heat (pos 0) 1
      (gear_value ∷ []) heat_value [] no_frame (omega arith) refl heat_named heat_fits beside_heat
      gear_only tt heat-InRange

-- The value of the instance, and a run of the handler on its bytes.
heat_comes_back :
    whole.add (whole.mul (whole.of_ℤ (raw_of whole heat (negsuc 39))) (pos 2)) (pos 10) ≡ negsuc 39
unfolding raw_of
heat_comes_back = refl

abbrev speed_if_gear_3 : DbcSignalDescription ℤ
speed_if_gear_3 = signal_of (codes "speed") false (pos 3) 23 8 false

abbrev switched : DbcMessageDescription ℤ
switched = record engine { signal_descriptions = speed_if_gear_3 ∷ gear ∷ heat ∷ [] }

abbrev some_bytes : List ℕ
some_bytes = 3 ∷ 231 ∷ 7 ∷ 0 ∷ 0 ∷ 0 ∷ 0 ∷ 0 ∷ []

read_frame_lem_example :
    let little = little_endian_from 0 0 some_bytes in
    let big = big_endian_from 0 some_bytes in
    let ds = speed_if_gear_3 ∷ gear ∷ heat ∷ [] in
    (read_frame whole switched some_bytes).signal_values
    ≡ first_values whole little big ds
      ++ selected_values whole little big
          (multiplexor whole little big (negsuc 0) ds)
          (put_off whole ds)
read_frame_lem_example = read_frame_lem whole switched some_bytes

abbrev two_engines : DbcConfig ℤ
two_engines = record {
  node_definitions = [];
  message_definitions = engine ∷ switched ∷ [];
  signal_value_descriptions = [];
  comments = [];
  meta_data = record { version = []; file_name = [] };
}

handle_new_dbc_lem_example :
    (length (handle_new_dbc whole two_engines engine_table) ≡ 3)
    × (get_or (handle_new_dbc whole two_engines engine_table) 1 none
        ≡ last_with whole 1 none (engine ∷ switched ∷ []))
handle_new_dbc_lem_example = handle_new_dbc_lem whole two_engines engine_table 1 (omega arith)

raw_bits-WithinRange_example :
    WithinRange true 8 (to_int64 (with_sign true 8 (raw_bits true 15 8 0 (255 * 2 ^ 48))))
raw_bits-WithinRange_example =
    raw_bits-WithinRange true true 15 8 0 (255 * 2 ^ 48) heat_fits (omega arith)

handle_send_message-parse_received_message_example :
    handle_send_message (parse_received_message 256 (7 ∷ 0 ∷ 9 ∷ []) (pos 5))
    ≡ (256, 7 ∷ 0 ∷ 9 ∷ [])
handle_send_message-parse_received_message_example =
    handle_send_message-parse_received_message 256 (7 ∷ 0 ∷ 9 ∷ []) (pos 5) (omega arith)
