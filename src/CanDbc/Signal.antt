-- ===== src/CanDbc/Signal.antt =====
-- `CanDbcHandler::parseReceivedSignal` and `parseSendSignal`: one signal out of the words of a
-- frame, and into them.
use cancept.Prelude.{ℕ, ◌+◌, ◌-◌, ◌*◌, ◌/◌, ◌%◌, ◌^◌, Bool, true, false, leb, bit_or, bit_and}
use cancept.Prelude.Int.{ℤ}
use cancept.Core.Float.{Float, std_min, std_max}
use cancept.Core.Dto.{DbcSignalDescription}
use cancept.CanDbc.Words.{sub_uint, shift_left, shift_right, shift_signed, to_int64, of_int64}

-- `63 - (56 - 8 * (startBit / 8) + startBit % 8)`, cut to `uint8_t`.
unfoldable pub linear_start : ℕ → ℕ
unfolding sub_uint
linear_start start_bit =
    sub_uint 63 ((sub_uint 56 (8 * (start_bit / 8)) + start_bit % 8) % 2 ^ 32) % 256

-- `rawValue` before its sign is considered, from the word of the signal's byte order.
unfoldable pub raw_bits : Bool → ℕ → ℕ → ℕ → ℕ → ℕ
unfolding sub_uint shift_left shift_right linear_start
raw_bits byte_order start_bit size little big = elim byte_order [
  | false ↦
      shift_right (shift_left little (sub_uint (sub_uint 64 start_bit) size)) (sub_uint 64 size)
  | true ↦ shift_right (shift_left big (linear_start start_bit)) (sub_uint 64 size)
]

unfoldable pub with_sign : Bool → ℕ → ℕ → ℕ
unfolding sub_uint shift_left shift_signed
with_sign value_type size raw = elim value_type [
  | true ↦ shift_signed (shift_left raw (sub_uint 64 size)) (sub_uint 64 size)
  | false ↦ raw
]

unfoldable pub size_mask : ℕ → ℕ
size_mask size = elim (leb 64 size) [ true ↦ 2 ^ 64 - 1 | false ↦ 2 ^ size - 1 ]

-- The words after the raw value is written: little endian and big endian.
unfoldable pub put_bits : Bool → ℕ → ℕ → ℕ → ℕ × ℕ → ℕ × ℕ
unfolding sub_uint shift_left linear_start
put_bits byte_order start_bit size raw (little, big) = elim byte_order [
  | false ↦ (bit_or little (shift_left raw start_bit), big)
  | true ↦
      (little, bit_or big (shift_left raw (sub_uint (sub_uint 64 (linear_start start_bit)) size)))
]

module _ (F : Float) where
  open F use {Real, add, sub, mul, div, of_ℤ, to_ℤ, round}

  unfoldable pub parse_received_signal : DbcSignalDescription Real → ℕ → ℕ → Real
  unfolding raw_bits with_sign to_int64
  parse_received_signal signal little big =
      let raw = raw_bits signal.byte_order signal.start_bit signal.signal_size little big in
      add (mul (of_ℤ (to_int64 (with_sign signal.value_type signal.signal_size raw))) signal.factor)
        signal.offset

  -- The raw value of a physical one.
  unfoldable pub raw_of : DbcSignalDescription Real → Real → ℤ
  raw_of signal value =
      let clamped = std_min F (std_max F value signal.minimum) signal.maximum in
      to_ℤ (round (div (sub clamped signal.offset) signal.factor))

  unfoldable pub parse_send_signal : DbcSignalDescription Real → Real → ℕ × ℕ → ℕ × ℕ
  unfolding raw_of size_mask put_bits of_int64
  parse_send_signal signal value words =
      put_bits signal.byte_order signal.start_bit signal.signal_size
        (bit_and (of_int64 (raw_of signal value)) (size_mask signal.signal_size)) words
