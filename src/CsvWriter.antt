-- ===== src/CsvWriter.antt =====
-- `can_stream/writer/csv_writer.cpp`. The file is the list of its lines. `format` is the text of a
-- double with a number of decimals, as the stream library writes it (`std::fixed`).
use cancept.Prelude.{
  ℕ, zero, suc, ◌+◌, ◌-◌, ◌*◌, ◌/◌, ◌%◌, min, Bool, true, false, List, [], ◌∷◌, ◌++◌, Option, none,
  some, Bytes, codes, length, replicate, take, ltb, equal, if◌then◌else◌, ◌&&◌,
}
use cancept.Prelude.Int.{ℤ, pos}
use cancept.Core.Float.{Float}
use cancept.Core.Dto.{RawCanMessage, DbcCanSignal, DbcCanMessage}
use cancept.DbcParser.Sections.{to_string}
pub mod Hex
pub mod RoundTrip
pub mod Fields
pub mod Columns
pub mod DbcFrames
pub mod Opening
pub mod Frames
pub mod Reading
mod Tests

pub record CsvWriter : Type 0 where
  pub lines : List Bytes
  pub is_dbc : Bool
  pub headers : List Bytes
  pub opened : Bool

-- The headers of a file of physical values get the column "MsgID" behind the first.
unfoldable pub with_msg_id : Bool → List Bytes → List Bytes
with_msg_id true (h ∷ hs) = h ∷ codes "MsgID" ∷ hs
with_msg_id true [] = []
with_msg_id false hs = hs

unfoldable pub joined : List Bytes → Bytes
joined [] = []
joined (h ∷ []) = h
joined (h ∷ k ∷ hs) = h ++ b',' ∷ joined (k ∷ hs)

-- The constructor; whether the file can be opened is an argument.
unfoldable pub new_writer : Bool → Bool → List Bytes → CsvWriter
unfolding with_msg_id joined
new_writer can_open is_dbc headers =
    let all = if can_open then with_msg_id is_dbc headers else headers in
    record {
      lines = if can_open then joined all ∷ [] else [];
      is_dbc = is_dbc;
      headers = all;
      opened = can_open;
    }

-- A hexadecimal digit in upper case, and a number with at least so many of them.
unfoldable pub hex_digit : ℕ → ℕ
hex_digit d = if ltb d 10 then b'0' + d else b'A' + (d - 10)

unfoldable pub hex_before : ℕ → ℕ → Bytes → Bytes
unfolding hex_digit
hex_before zero n rest = rest
hex_before (suc fuel) n rest =
    let next = hex_digit (n % 16) ∷ rest in
    elim (ltb n 16) [ true ↦ next | false ↦ hex_before fuel (n / 16) next ]

unfoldable pub hex : ℕ → ℕ → Bytes
unfolding hex_before
hex width n =
    let digits = hex_before (suc n) n [] in replicate (width - length digits) b'0' ++ digits

-- The bytes of a frame, with blanks between them.
unfoldable pub more_bytes : List ℕ → Bytes
unfolding hex
more_bytes [] = []
more_bytes (b ∷ bs) = b' ' ∷ (hex 2 b ++ more_bytes bs)

unfoldable pub data_text : List ℕ → Bytes
unfolding hex more_bytes
data_text [] = []
data_text (b ∷ bs) = hex 2 b ++ more_bytes bs

module _ (F : Float) (format : ℕ → Float.Real F → Bytes) where
  open F use {Real, of_ℤ, div}

  unfoldable pub time_text : ℤ → Bytes
  time_text ns = format 9 (div (of_ℤ ns) (of_ℤ (pos 1000000000)))

  -- The fields of a raw frame; commas go between them.
  unfoldable pub raw_fields : RawCanMessage → List Bytes
  unfolding time_text hex to_string data_text
  raw_fields m =
      time_text m.receive_time
      ∷ codes "1"
      ∷ (codes "0x" ++ hex 3 m.message_id)
      ∷ codes "Rx"
      ∷ to_string m.dlc
      ∷ to_string m.dlc
      ∷ data_text (take (min m.dlc 8) m.payload)
      ∷ []

  unfoldable pub raw_line : RawCanMessage → Bytes
  unfolding raw_fields joined
  raw_line m = joined (raw_fields m)

  unfoldable pub value_of : Bytes → List (DbcCanSignal Real) → Bytes
  unfolding equal
  value_of header [] = codes "-"
  value_of header (s ∷ ss) =
      let rest = value_of header ss in if equal s.name header then format 3 s.value else rest

  -- The columns behind the first.
  unfoldable pub columns : DbcCanMessage Real → List Bytes → Bytes
  unfolding hex value_of equal
  columns m [] = []
  columns m (h ∷ hs) =
      b','
      ∷ ((if equal h (codes "MsgID")
            then codes "0x" ++ hex 3 m.message_id
            else value_of h m.signal_values)
          ++ columns m hs)

  unfoldable pub dbc_line : List Bytes → DbcCanMessage Real → Bytes
  unfolding time_text columns
  dbc_line [] m = time_text m.receive_time
  dbc_line (h ∷ hs) m = time_text m.receive_time ++ columns m hs

  unfoldable pub write_raw : RawCanMessage → CsvWriter → CsvWriter
  unfolding raw_line
  write_raw m w = if w.opened then record w { lines = w.lines ++ raw_line m ∷ [] } else w

  unfoldable pub write_dbc : DbcCanMessage Real → CsvWriter → CsvWriter
  unfolding dbc_line
  write_dbc m w = if w.opened then record w { lines = w.lines ++ dbc_line w.headers m ∷ [] } else w

unfoldable pub close : CsvWriter → CsvWriter
close w = record w { opened = false }
