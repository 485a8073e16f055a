-- ===== src/Core/Dto.antt =====
-- `core/dto/can_dto.hpp` and `core/dto/dbc_dto.hpp`. A `double` is of the type `D`; a `char` of a
-- frame is its bit pattern, below 256; a `std::string` is the list of its bytes; times are counts
-- of nanoseconds.
use cancept.Prelude.{ℕ, Bool, List, Bytes}
use cancept.Prelude.Int.{ℤ}

pub record RawCanMessage : Type 0 where
  pub receive_time : ℤ
  pub payload : List ℕ
  pub message_id : ℕ
  pub dlc : ℕ

pub record DbcCanSignal (D : Type 0) : Type 0 where
  pub name : Bytes
  pub value : D

pub record DbcCanMessage (D : Type 0) : Type 0 where
  pub receive_time : ℤ
  pub signal_values : List (DbcCanSignal D)
  pub message_id : ℕ

pub record DbcSignalDescription (D : Type 0) : Type 0 where
  pub signal_name : Bytes
  pub multiplexer : Bool
  -- the value at which the signal is active, -1 if it is not multiplexed
  pub multiplexed_by : ℤ
  pub start_bit : ℕ
  pub signal_size : ℕ
  -- `true` for big endian
  pub byte_order : Bool
  -- `true` for signed
  pub value_type : Bool
  pub factor : D
  pub offset : D
  pub minimum : D
  pub maximum : D
  pub unit : Bytes
  pub receivers : List Bytes

pub record DbcMessageDescription (D : Type 0) : Type 0 where
  pub message_id : ℕ
  pub message_name : Bytes
  pub message_size : ℕ
  pub transmitter_name : Bytes
  pub signal_descriptions : List (DbcSignalDescription D)

pub record DbcValueDescription (D : Type 0) : Type 0 where
  pub value : D
  pub meaning : Bytes

pub record DbcSignalValueDescription (D : Type 0) : Type 0 where
  pub message_id : ℕ
  pub signal_name : Bytes
  pub signal_descriptions : List (DbcValueDescription D)

pub record DbcMetaData : Type 0 where
  pub version : Bytes
  pub file_name : Bytes

pub record DbcConfig (D : Type 0) : Type 0 where
  pub node_definitions : List Bytes
  pub message_definitions : List (DbcMessageDescription D)
  pub signal_value_descriptions : List (DbcSignalValueDescription D)
  pub comments : List Bytes
  pub meta_data : DbcMetaData
