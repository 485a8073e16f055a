-- ===== src/CsvWriter/DbcFrames.antt =====
-- A frame of physical values that `CsvWriter` has written, read by `CsvReader`.
use cancept.Prelude.{
  ℕ, suc, ◌≤◌, ◌<◌, ◌≡◌, refl, ap, ◌∙◌, Bool, true, false, not, ◌||◌, List, [], ◌∷◌, map, Option,
  none, some, Bytes, codes, length, get_or, equal, starts_with, if◌then◌else◌, ltb, lt→ltb, ◌==◌,
  All, arith,
}
use cancept.Core.Float.{Float}
use cancept.Core.Dto.{DbcCanSignal, DbcCanMessage}
use cancept.CsvReader.{CsvReader, advance, is_column, signals_from, dbc_record, read_dbc}
use cancept.CsvReader.Fields.{split_line, parse_timestamp_ns, parse_hex_id}
use cancept.CsvWriter.{time_text, dbc_line}
use cancept.CsvWriter.Hex.{parse_hex_id-hex}
use cancept.CsvWriter.Reading.{placed}
use cancept.CsvWriter.Frames.{second_of, no_guard}
use cancept.CsvWriter.Columns.{
  held, IsColumn, columns_of, IsField, IsWritableDbc, column, column_MsgID, text_of, column-text_of,
  split_line-dbc_line,
}

-- A reader of frames of physical values with these columns.
unfoldable pub IsDbcReader : List Bytes → CsvReader → Type 0
IsDbcReader hs r =
    (r.opened ≡ true)
    × (r.is_raw ≡ false)
    × (r.column_headers ≡ columns_of hs)
    × (r.col_msg_id ≡ some 1)

pub placed-IsDbcReader :
    (hs : List Bytes) (r : CsvReader) (line : Bytes) (lines : List Bytes) (cursor : ℕ)
    → IsDbcReader hs r
    → IsDbcReader hs (placed r line lines cursor)
unfolding IsDbcReader
placed-IsDbcReader hs r line lines cursor h = h

id_of : ℕ → Bytes → ℕ
id_of n field = if ltb 1 (suc n) then parse_hex_id field else 0

id_of-ltb : (n : ℕ) (field : Bytes) → id_of (suc n) field ≡ parse_hex_id field
unfolding id_of
id_of-ltb n field =
    ap (λ b. if b then parse_hex_id field else 0) (lt→ltb 1 (suc (suc n)) (omega arith))

filled : {D : Type 0} → Bytes → List (DbcCanSignal D) → ℕ → DbcCanMessage D
filled time ss id = record {
  receive_time = parse_timestamp_ns time;
  signal_values = ss;
  message_id = id;
}

neither : (a b : Bool) → a ≡ false → b ≡ false → (false || a || b) ≡ false
neither a b e f = ground (arith, e, f)

not_one : (i : ℕ) → 1 < i → (i == 1) ≡ false
not_one i h = ground (arith, h)

module _ (F : Float) (format : ℕ → Float.Real F → Bytes) (stod : Bytes → Option (Float.Real F))
    (rounded : Float.Real F → Float.Real F) where
  open F use {Real}

  -- The text of a value is a field that `stod` reads, as the value with its decimals.
  unfoldable pub IsReadBack : Real → Type 0
  unfolding IsField
  IsReadBack v =
      IsField F format v
      × (equal (format 3 v) [] ≡ false)
      × (equal (format 3 v) (codes "-") ≡ false)
      × (stod (format 3 v) ≡ some (rounded v))

  -- What is read of the columns: a value for each whose signal the frame has.
  keep : Bytes → Option Real → List (DbcCanSignal Real) → List (DbcCanSignal Real)
  keep h none rest = rest
  keep h (some v) rest = record { name = h; value = rounded v } ∷ rest

  unfoldable pub carried : List Bytes → List (DbcCanSignal Real) → List (DbcCanSignal Real)
  unfolding keep held
  carried [] ss = []
  carried (h ∷ hs) ss = keep h (held h ss) (carried hs ss)

  unfoldable pub dbc_as_read : List Bytes → DbcCanMessage Real → DbcCanMessage Real
  dbc_as_read hs m = record {
    receive_time = parse_timestamp_ns (time_text F format m.receive_time);
    signal_values = carried hs m.signal_values;
    message_id = m.message_id;
  }

  -- What `read` makes of the fields, for these columns and this column of the identifier.
  record_of : List Bytes → Option ℕ → Bytes → List Bytes → DbcCanMessage Real
  record_of heads id time fields = record {
    receive_time = parse_timestamp_ns time;
    signal_values = elim heads [ [] ↦ [] | _ ∷ hs ↦ signals_from Real stod 1 id hs fields ];
    message_id = elim id [
      | none ↦ 0
      | some i ↦
          (if ltb i (suc (length fields)) then parse_hex_id (get_or (time ∷ fields) i []) else 0)
    ];
  }

  dbc_record-record_of :
      (r : CsvReader) (hs : List Bytes) (time : Bytes) (fields : List Bytes)
      → IsDbcReader hs r
      → dbc_record Real stod r time fields ≡ record_of (columns_of hs) (some 1) time fields
  unfolding dbc_record record_of IsDbcReader
  dbc_record-record_of r hs time fields (o, w, c, i) =
      ap (λ heads. record_of heads r.col_msg_id time fields) c
      ∙ ap (λ id. record_of (columns_of hs) id time fields) i

  module _ (written : (v : Real) → IsReadBack v) where
    fields : (v : Real) → IsField F format v
    unfolding IsReadBack
    fields v = (written v).0

    read_column : Bytes → Bool → Bytes → List (DbcCanSignal Real) → List (DbcCanSignal Real)
    read_column h b field rest = elim (b || equal field [] || equal field (codes "-")) [
      | true ↦ rest
      | false ↦ elim (stod field) [
        | none ↦ rest
        | some value ↦ record { name = h; value = value } ∷ rest
      ]
    ]

    read_column-text_of :
        (h : Bytes) (o : Option Real) (rest : List (DbcCanSignal Real))
        → read_column h false (text_of F format o) rest ≡ keep h o rest
    unfolding read_column text_of keep equal starts_with IsReadBack
    read_column-text_of h none rest = refl
    read_column-text_of h (some v) rest =
        second_of _ _ _ (neither _ _ (written v).1 (written v).2)
        ∙ ap (λ o. elim o [ none ↦ rest | some x ↦ record { name = h; value = x } ∷ rest ])
            (written v).3

    -- The columns of values are behind the identifier.
    signals_from-columns :
        (m : DbcCanMessage Real) (i : ℕ) (hs : List Bytes)
        → 1 < i
        → All IsColumn hs
        → signals_from Real stod i (some 1) hs (map (column F format m) hs)
          ≡ carried hs m.signal_values
    unfolding signals_from is_column carried All read_column
    signals_from-columns m i [] l a = refl
    signals_from-columns m i (h ∷ hs) l a =
        let rest = signals_from Real stod (suc i) (some 1) hs (map (column F format m) hs) in
        ap (λ b. read_column h b (column F format m h) rest) (not_one i l)
        ∙ ap (λ c. read_column h false c rest) (column-text_of F format m h a.0)
        ∙ read_column-text_of h (held h m.signal_values) rest
        ∙ ap (keep h (held h m.signal_values))
            (signals_from-columns m (suc i) hs (omega (arith, l)) a.1)

    record_of-columns :
        (m : DbcCanMessage Real) (hs : List Bytes) (time : Bytes)
        → All IsColumn hs
        → m.message_id ≤ 2047
        → record_of (columns_of hs) (some 1) time (map (column F format m) (codes "MsgID" ∷ hs))
          ≡ record {
            receive_time = parse_timestamp_ns time;
            signal_values = carried hs m.signal_values;
            message_id = m.message_id;
          }
    unfolding record_of signals_from is_column id_of filled
    record_of-columns m hs time a l =
        ap
          (λ ss.
            filled time ss (
              id_of (suc (length (map (column F format m) hs)))
                (column F format m (codes "MsgID"))))
          (signals_from-columns m 2 hs (omega arith) a)
        ∙ ap (λ (n : ℕ). filled time (carried hs m.signal_values) n)
            (id_of-ltb _ _
              ∙ ap parse_hex_id (column_MsgID F format m)
              ∙ parse_hex_id-hex m.message_id l)

    -- A writable frame is read, with the values of the columns whose signals it has.
    pub read_dbc-dbc_line :
        (hs : List Bytes)
        → All IsColumn hs
        → (r : CsvReader) (m : DbcCanMessage Real) → IsDbcReader hs r
        → r.eof ≡ false
        → r.next_line ≡ dbc_line F format (columns_of hs) m
        → IsWritableDbc F format m
        → read_dbc Real stod r ≡ (some (dbc_as_read hs m), advance r)
    unfolding read_dbc IsWritableDbc dbc_as_read IsDbcReader
    read_dbc-dbc_line hs a r m (o, w, c, i) e next (t, l) =
        second_of (not r.opened || r.eof || r.is_raw) _ _ (no_guard r r.is_raw o e w)
        ∙ ap
            (λ fs. elim fs [
              | [] ↦ (none, advance r)
              | time ∷ fields ↦ (some (dbc_record Real stod r time fields), advance r)
            ])
            (ap split_line next ∙ split_line-dbc_line F format fields m hs a t)
        ∙ ap (λ x. (some x, advance r))
            (dbc_record-record_of r hs _ _ (o, w, c, i)
              ∙ record_of-columns m hs (time_text F format m.receive_time) a l)
