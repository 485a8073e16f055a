-- ===== src/CsvReader.antt =====
-- `can_stream/reader/csv_reader.cpp`: a reader that goes through the records of a CSV file.
use cancept.Prelude.{
  ℕ, zero, suc, ◌+◌, ◌-◌, Bool, true, false, not, ◌&&◌, ◌||◌, List, [], ◌∷◌, ◌++◌, Option, none,
  some, ltb, leb, ◌==◌, Bytes, codes, equal, length, get_or, replicate, if◌then◌else◌,
}
use cancept.Prelude.Int.{ℤ, pos}
use cancept.Core.Dto.{RawCanMessage, DbcCanSignal, DbcCanMessage}
use cancept.CsvReader.Fields.{split_line, parse_hex_id, parse_timestamp_ns, from_chars, data_bytes}
pub mod Fields
pub mod Position
pub mod Seek
mod Tests

-- The members. The file is its lines: those behind the header (`m_dataStart`) and those that are
-- not read. `m_colMsgId` is `none` for -1.
pub record CsvReader : Type 0 where
  pub data_lines : List Bytes
  pub unread : List Bytes
  pub next_line : Bytes
  pub is_raw : Bool
  pub opened : Bool
  pub eof : Bool
  pub cursor : ℕ
  pub record_count : ℕ
  pub column_headers : List Bytes
  pub col_id : ℕ
  pub col_dlc : ℕ
  pub col_data : ℕ
  pub col_msg_id : Option ℕ

unfoldable pub new_reader : CsvReader
new_reader = record {
  data_lines = [];
  unread = [];
  next_line = [];
  is_raw = true;
  opened = false;
  eof = true;
  cursor = 0;
  record_count = 0;
  column_headers = [];
  col_id = 2;
  col_dlc = 4;
  col_data = 6;
  col_msg_id = none;
}

-- The next line that is not empty, and the lines behind it.
unfoldable pub skip_empty : List Bytes → Option (Bytes × List Bytes)
skip_empty [] = none
skip_empty ([] ∷ lines) = skip_empty lines
skip_empty ((c ∷ cs) ∷ lines) = some (c ∷ cs, lines)

-- At the end of the file the line is not read any more, and is empty here.
unfoldable pub advance_lookahead : CsvReader → CsvReader
unfolding skip_empty
advance_lookahead r = elim (skip_empty r.unread) [
  | none ↦ record r { unread = []; next_line = []; eof = true }
  | some (line, lines) ↦ record r { unread = lines; next_line = line; eof = false }
]

unfoldable pub close : CsvReader → CsvReader
close r = record r {
  data_lines = [];
  unread = [];
  next_line = [];
  opened = false;
  eof = true;
  cursor = 0;
  record_count = 0;
  column_headers = [];
  col_msg_id = none;
}

-- The loop over the columns, which sets the type and the places.
unfoldable pub resolve_columns : ℕ → List Bytes → CsvReader → CsvReader
unfolding equal
resolve_columns i [] r = r
resolve_columns i (h ∷ hs) r = resolve_columns (suc i) hs (
    if equal h (codes "ID")
    then record r { is_raw = true; col_id = i }
    else if equal h (codes "DLC")
    then record r { col_dlc = i }
    else if equal h (codes "Data")
    then record r { col_data = i }
    else if equal h (codes "MsgID")
    then record r { col_msg_id = some i }
    else r)

unfoldable pub count_records : List Bytes → ℕ
count_records [] = 0
count_records ([] ∷ lines) = count_records lines
count_records ((c ∷ cs) ∷ lines) = suc (count_records lines)

-- `open` of a file with these lines; `none` is a file that cannot be opened. A file without a line
-- has no header.
unfoldable pub open_file : Option (List Bytes) → CsvReader → Bool × CsvReader
unfolding close split_line resolve_columns count_records advance_lookahead
open_file none r = (false, close r)
open_file (some []) r = (false, close r)
open_file (some (header ∷ lines)) r =
    let headers = split_line header in
    let resolved =
      resolve_columns 0 headers (record (close r) { column_headers = headers; is_raw = false }) in
    (
      true,
      advance_lookahead (record resolved {
        data_lines = lines;
        unread = lines;
        record_count = count_records lines;
        cursor = 0;
        opened = true;
      }),
    )

unfoldable pub at_end : CsvReader → Bool
at_end r = not r.opened || r.eof

unfoldable pub advance : CsvReader → CsvReader
unfolding advance_lookahead
advance r = record (advance_lookahead r) { cursor = suc r.cursor }

-- `while (m_cursor < recordIndex && !m_eof)`, for the difference of the two.
unfoldable pub seek_loop : ℕ → CsvReader → CsvReader
unfolding advance
seek_loop zero r = r
seek_loop (suc n) r = elim r.eof [ true ↦ r | false ↦ seek_loop n (advance r) ]

unfoldable pub rewind : CsvReader → CsvReader
unfolding advance_lookahead
rewind r = advance_lookahead (record r { unread = r.data_lines; cursor = 0 })

unfoldable pub seek : ℕ → CsvReader → Bool × CsvReader
unfolding seek_loop rewind
seek record_index r = elim r.opened [
  | false ↦ (false, r)
  | true ↦
      (let start = if ltb record_index r.cursor then rewind r else r in
        let end = seek_loop (record_index - start.cursor) start in
        (end.cursor == record_index, end))
]

-- What `read` makes of a line. `fields[m_colId]` is read without a test; beyond the fields it is
-- empty here.
unfoldable pub raw_record : CsvReader → List Bytes → RawCanMessage
unfolding parse_timestamp_ns parse_hex_id from_chars data_bytes
raw_record r fields =
    let bytes = data_bytes 8 (get_or fields r.col_data []) in
    record {
      receive_time = parse_timestamp_ns (get_or fields 0 []);
      payload = bytes ++ replicate (8 - length bytes) 0;
      message_id = parse_hex_id (get_or fields r.col_id []);
      dlc = from_chars 8 10 (get_or fields r.col_dlc []);
    }

-- The record, if there is one, and the reader behind it.
unfoldable pub read_raw : CsvReader → Option RawCanMessage × CsvReader
unfolding split_line advance raw_record
read_raw r = elim (not r.opened || r.eof || not r.is_raw) [
  | true ↦ (none, r)
  | false ↦
      (let fields = split_line r.next_line in
        elim (leb (length fields) r.col_data) [
          | true ↦ (none, advance r)
          | false ↦ (some (raw_record r fields), advance r)
        ])
]

module _ (D : Type 0) (stod : Bytes → Option D) where
  unfoldable pub is_column : Option ℕ → ℕ → Bool
  is_column none i = false
  is_column (some j) i = i == j

  -- The loop over the columns from the place `i` on; a value that is no number is left out.
  unfoldable pub signals_from : ℕ → Option ℕ → List Bytes → List Bytes → List (DbcCanSignal D)
  unfolding is_column equal
  signals_from i msg_id [] fields = []
  signals_from i msg_id (h ∷ hs) [] = []
  signals_from i msg_id (h ∷ hs) (field ∷ fields) =
      let rest = signals_from (suc i) msg_id hs fields in
      elim (is_column msg_id i || equal field [] || equal field (codes "-")) [
        | true ↦ rest
        | false ↦ elim (stod field) [
          | none ↦ rest
          | some value ↦ record { name = h; value = value } ∷ rest
        ]
      ]

  unfoldable pub dbc_record : CsvReader → Bytes → List Bytes → DbcCanMessage D
  unfolding parse_timestamp_ns parse_hex_id signals_from
  dbc_record r time fields = record {
    receive_time = parse_timestamp_ns time;
    signal_values = elim r.column_headers [
      | [] ↦ []
      | _ ∷ hs ↦ signals_from 1 r.col_msg_id hs fields
    ];
    message_id = elim r.col_msg_id [
      | none ↦ 0
      | some i ↦
          (if ltb i (suc (length fields)) then parse_hex_id (get_or (time ∷ fields) i []) else 0)
    ];
  }

  unfoldable pub read_dbc : CsvReader → Option (DbcCanMessage D) × CsvReader
  unfolding split_line advance dbc_record
  read_dbc r = elim (not r.opened || r.eof || r.is_raw) [
    | true ↦ (none, r)
    | false ↦ elim (split_line r.next_line) [
      | [] ↦ (none, advance r)
      | time ∷ fields ↦ (some (dbc_record r time fields), advance r)
    ]
  ]
