-- ===== src/CsvWriter/Opening.antt =====
-- A file of physical values that `CsvWriter` has written, opened by `CsvReader`.
use cancept.Prelude.{
  ℕ, zero, suc, ◌≡◌, ◌≢◌, refl, if◌then◌else◌, ap, ◌∙◌, Bool, true, false, List, [], ◌∷◌, ◌++◌,
  Option, none, some, not, ◌||◌, Bytes, codes, equal, starts_with, All, All-map, arith,
}
use cancept.Core.Dto.{DbcCanMessage}
use cancept.CsvReader.{
  CsvReader, open_file, advance_lookahead, count_records, resolve_columns, advance, skip_empty,
  dbc_record, read_dbc,
}
use cancept.CsvReader.Fields.{split_line}
use cancept.CsvReader as Reader
use cancept.CsvWriter.{joined}
use cancept.CsvWriter.RoundTrip.{IsText, EndsFull, split_line-joined}
use cancept.CsvWriter.Fields.{not_nil}
use cancept.CsvWriter.Reading.{after_calls}
use cancept.CsvWriter.Columns.{columns_of, IsColumn}
use cancept.CsvWriter.DbcFrames.{IsDbcReader}

-- The text of a header is a field of a line.
unfoldable pub IsHeader : Bytes → Type 0
IsHeader h = All IsText h × (h ≢ [])

pub IsColumn-IsHeader : (hs : List Bytes) → All IsColumn hs → All IsHeader hs
unfolding IsColumn IsHeader
IsColumn-IsHeader hs a = All-map hs (λ h c. (c.0, c.1)) a

headers-All : (hs : List Bytes) → All IsHeader hs → All (All IsText) hs
unfolding IsHeader
headers-All hs a = All-map hs (λ h c. c.0) a

headers-EndsFull : (h : Bytes) (hs : List Bytes) → h ≢ [] → All IsHeader hs → EndsFull (h ∷ hs)
unfolding All IsHeader EndsFull
headers-EndsFull h [] n a = n
headers-EndsFull h (k ∷ hs) n a = headers-EndsFull k hs a.0.1 a.1

pub split_line-columns_of :
    (hs : List Bytes) → All IsHeader hs → split_line (joined (columns_of hs)) ≡ columns_of hs
unfolding All IsText EndsFull
split_line-columns_of hs a =
    split_line-joined (columns_of hs) (omega arith, (omega arith, headers-All hs a))
      (headers-EndsFull (codes "MsgID") hs (not_nil _ _ _ refl) a)

-- The columns are those of physical values.
IsResolved : List Bytes → CsvReader → Type 0
IsResolved heads r = (r.is_raw ≡ false) × (r.column_headers ≡ heads) × (r.col_msg_id ≡ some 1)

resolve_columns-IsResolved :
    (heads : List Bytes) (i : ℕ) (hs : List Bytes) (r : CsvReader)
    → All IsColumn hs
    → IsResolved heads r
    → IsResolved heads (resolve_columns i hs r)
unfolding resolve_columns All IsColumn IsResolved
resolve_columns-IsResolved heads i [] r a h = h
resolve_columns-IsResolved heads i (k ∷ hs) r a (w, c, m) =
    resolve_columns-IsResolved heads (suc i) hs _ a.1 (
      kept (equal k (codes "ID")) (equal k (codes "DLC")) (equal k (codes "Data"))
        (equal k (codes "MsgID")) a.0.2 a.0.3)
  where
    kept :
        (id dlc bytes msg_id : Bool)
        → id ≡ false
        → msg_id ≡ false
        → IsResolved heads (
            if id
            then record r { is_raw = true; col_id = i }
            else if dlc
            then record r { col_dlc = i }
            else if bytes
            then record r { col_data = i }
            else if msg_id
            then record r { col_msg_id = some i }
            else r)
    kept true dlc bytes msg_id e f = ground (arith, e)
    kept false true bytes msg_id e f = (w, c, m)
    kept false false true msg_id e f = (w, c, m)
    kept false false false true e f = ground (arith, f)
    kept false false false false e f = (w, c, m)

-- The reader of a file with these lines, before it looks at the first of them.
unfoldable pub opened_on : List Bytes → List Bytes → CsvReader → CsvReader
opened_on heads lines r =
    record (resolve_columns 0 heads
      (record (Reader.close r) { column_headers = heads; is_raw = false })) {
        data_lines = lines;
        unread = lines;
        record_count = count_records lines;
        cursor = 0;
        opened = true;
      }

pub opened_on-IsDbcReader :
    (hs lines : List Bytes) (r : CsvReader)
    → All IsColumn hs
    → IsDbcReader hs (opened_on (columns_of hs) lines r)
unfolding opened_on IsDbcReader IsResolved resolve_columns equal starts_with
opened_on-IsDbcReader hs lines r a =
    let base = record (Reader.close r) { column_headers = columns_of hs; is_raw = false } in
    let (w, c, m) =
      resolve_columns-IsResolved (columns_of hs) 2 hs (record base { col_msg_id = some 1 }) a
        (refl, refl, refl) in
    (refl, w, c, m)

-- A column "ID" makes the file one of raw frames.
resolve_columns-raw :
    (i : ℕ) (hs : List Bytes) (r : CsvReader)
    → r.is_raw ≡ true
    → (resolve_columns i hs r).is_raw ≡ true
unfolding resolve_columns
resolve_columns-raw i [] r w = w
resolve_columns-raw i (k ∷ hs) r w = resolve_columns-raw (suc i) hs _ (
    kept (equal k (codes "ID")) (equal k (codes "DLC")) (equal k (codes "Data"))
      (equal k (codes "MsgID")))
  where
    kept :
        (id dlc bytes msg_id : Bool)
        → (if id
            then record r { is_raw = true; col_id = i }
            else if dlc
            then record r { col_dlc = i }
            else if bytes
            then record r { col_data = i }
            else if msg_id
            then record r { col_msg_id = some i }
            else r).is_raw
          ≡ true
    kept true dlc bytes msg_id = refl
    kept false true bytes msg_id = w
    kept false false true msg_id = w
    kept false false false true = w
    kept false false false false = w

pub resolve_columns-append :
    (i : ℕ) (hs ks : List Bytes) (r : CsvReader)
    → (resolve_columns i (hs ++ codes "ID" ∷ ks) r).is_raw ≡ true
unfolding resolve_columns equal starts_with
resolve_columns-append i [] ks r = resolve_columns-raw (suc i) ks _ refl
resolve_columns-append i (h ∷ hs) ks r = resolve_columns-append (suc i) hs ks _

pub open_file-opened_on :
    (hs lines : List Bytes) (r : CsvReader)
    → All IsHeader hs
    → (open_file (some (joined (columns_of hs) ∷ lines)) r).1
      ≡ advance_lookahead (opened_on (columns_of hs) lines r)
unfolding open_file opened_on
open_file-opened_on hs lines r a =
    ap (λ heads. advance_lookahead (opened_on heads lines r)) (split_line-columns_of hs a)

-- Looking ahead does not change the type of the file.
pub advance_lookahead-raw : (r : CsvReader) → r.is_raw ≡ true → (advance_lookahead r).is_raw ≡ true
unfolding advance_lookahead
advance_lookahead-raw r w = same (skip_empty r.unread)
  where
    same :
        (o : Option (Bytes × List Bytes))
        → (elim o as (λ x. CsvReader) [
          | none ↦ record r { unread = []; next_line = []; eof = true }
          | some (line, lines) ↦ record r { unread = lines; next_line = line; eof = false }
        ]).is_raw
          ≡ true
    same none = w
    same (some (line, lines)) = w

any_true : (a b c : Bool) → c ≡ true → (a || b || c) ≡ true
any_true a b c h = ground (arith, h)

-- A reader of raw frames reads none of physical values, and stays as it is.
read_dbc-raw :
    {D : Type 0} (stod : Bytes → Option D) (r : CsvReader)
    → r.is_raw ≡ true
    → read_dbc D stod r ≡ (none, r)
unfolding read_dbc
read_dbc-raw {D} stod r w =
    ap
      (λ b. elim b as (λ x. Option (DbcCanMessage D) × CsvReader) [
        | true ↦ (none, r)
        | false ↦ elim (split_line r.next_line) [
          | [] ↦ (none, advance r)
          | time ∷ fields ↦ (some (dbc_record D stod r time fields), advance r)
        ]
      ])
      (any_true (not r.opened) r.eof r.is_raw w)

-- Each call fails, also behind others that failed.
pub after_calls-raw :
    {D : Type 0} (stod : Bytes → Option D) (n : ℕ) (r : CsvReader)
    → r.is_raw ≡ true
    → (read_dbc D stod (after_calls (read_dbc D stod) n r)).0 ≡ none
unfolding after_calls
after_calls-raw stod zero r w = ap (λ q. q.0) (read_dbc-raw stod r w)
after_calls-raw {D} stod (suc n) r w =
    ap (λ q. (read_dbc D stod (after_calls (read_dbc D stod) n q.1)).0) (read_dbc-raw stod r w)
    ∙ after_calls-raw stod n r w
