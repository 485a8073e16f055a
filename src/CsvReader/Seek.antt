-- ===== src/CsvReader/Seek.antt =====
-- `seek` and `open` of the reader: where they stop, and the records that are then to be read.
use cancept.Prelude.{
  ℕ, ◌-◌, ◌≤◌, ◌≡◌, refl, sym, ap, ◌∙◌, subst, min, Bool, true, false, List, ◌∷◌, some, ltb, leb,
  ◌==◌, Bytes, length, drop, if◌then◌else◌, arith,
}
use cancept.CsvReader.Fields.{split_line}
use cancept.CsvReader.{
  CsvReader, advance_lookahead, count_records, seek_loop, rewind, seek, open_file, close,
  resolve_columns,
}
use cancept.CsvReader.Position.{
  records, ahead, IsPlaced, ahead-advance_lookahead, SameFile, advance_lookahead-SameFile,
  seek_loop-IsPlaced, rewind-IsPlaced,
}

abbrev start_of : ℕ → CsvReader → CsvReader
start_of k r = if ltb k r.cursor then rewind r else r

start_of-IsPlaced :
    (k : ℕ) (r : CsvReader)
    → IsPlaced r
    → IsPlaced (start_of k r)
      × ((start_of k r).data_lines ≡ r.data_lines)
      × ((start_of k r).cursor ≤ k)
start_of-IsPlaced k r h = by_if (ltb k r.cursor) (λ e. ground arith)
  where
    by_if :
        (b : Bool)
        → (b ≡ false → r.cursor ≤ k)
        → IsPlaced (if b then rewind r else r)
          × ((if b then rewind r else r).data_lines ≡ r.data_lines)
          × ((if b then rewind r else r).cursor ≤ k)
    by_if true f =
        ((rewind-IsPlaced r).0, (rewind-IsPlaced r).1, omega (arith, (rewind-IsPlaced r).2))
    by_if false f = (h, refl, f refl)

seek_open :
    (k : ℕ) (r : CsvReader)
    → r.opened ≡ true
    → seek k r ≡ (
      ((seek_loop (k - (start_of k r).cursor) (start_of k r)).cursor == k),
      seek_loop (k - (start_of k r).cursor) (start_of k r),
    )
unfolding seek
seek_open k r e =
    ap {B = Bool × CsvReader}
      (λ (b : Bool). elim b [
        | false ↦ (false, r)
        | true ↦ (
          ((seek_loop (k - (start_of k r).cursor) (start_of k r)).cursor == k),
          seek_loop (k - (start_of k r).cursor) (start_of k r),
        )
      ])
      e

min_test : (k n : ℕ) → (min k n == k) ≡ leb k n
min_test k n = ground arith

-- A seek on an open reader whose cursor counts the records that are read: it succeeds exactly if the
-- file has that many records, it stops at the record or behind the last one, and the cursor still
-- counts, so the records to be read are those of the file without the first ones.
pub seek-IsPlaced :
    (k : ℕ) (r : CsvReader)
    → r.opened ≡ true
    → IsPlaced r
    → IsPlaced (seek k r).1
      × ((seek k r).1.data_lines ≡ r.data_lines)
      × ((seek k r).1.cursor ≡ min k (length (records r.data_lines)))
      × ((seek k r).0 ≡ leb k (length (records r.data_lines)))
seek-IsPlaced k r e h =
    let start = start_of k r in
    let placed = start_of-IsPlaced k r h in
    let end = seek_loop-IsPlaced (k - start.cursor) start placed.0 in
    let count = length (records r.data_lines) in
    let there : (seek_loop (k - start.cursor) start).cursor ≡ min k count =
      omega (arith, end.2, placed.2, ap (λ ls. length (records ls)) placed.1) in
    subst
      (λ (q : Bool × CsvReader).
        IsPlaced q.1
        × (q.1.data_lines ≡ r.data_lines)
        × (q.1.cursor ≡ min k count)
        × (q.0 ≡ leb k count))
      (sym (seek_open k r e))
      (end.0, end.1 ∙ placed.1, there, ap (λ (c : ℕ). c == k) there ∙ min_test k count)

-- A reader that has opened a file, whatever it has read before, is at the first record.
pub open_file-IsPlaced :
    (header : Bytes) (lines : List Bytes) (r : CsvReader)
    → let q = (open_file (some (header ∷ lines)) r).1 in
      IsPlaced q × (q.data_lines ≡ lines) × (q.cursor ≡ 0) × (q.opened ≡ true)
unfolding open_file IsPlaced SameFile
open_file-IsPlaced header lines r =
    let headers = split_line header in
    let resolved =
      resolve_columns 0 headers (record (close r) { column_headers = headers; is_raw = false }) in
    let start : CsvReader = record resolved {
      data_lines = lines;
      unread = lines;
      record_count = count_records lines;
      cursor = 0;
      opened = true;
    } in
    let same = advance_lookahead-SameFile start in
    let q = advance_lookahead start in
    (
      (
        ahead-advance_lookahead start
            ∙ sym (ap (λ ls. records ls) same.0)
            ∙ ap (λ (k : ℕ). drop k (records q.data_lines)) (sym same.1),
        omega (arith, same.1),
      ),
      same.0,
      same.1,
      same.2,
    )

-- Open a file and seek: the seek succeeds exactly if the file has that many records, which are its
-- lines behind the header that are not empty, and the records to be read are then all behind the
-- first `k`, or none if there are not so many.
pub seek-open_file :
    (k : ℕ) (header : Bytes) (lines : List Bytes) (r : CsvReader)
    → let q = seek k (open_file (some (header ∷ lines)) r).1 in
      let count = length (records lines) in
      (q.0 ≡ leb k count) × (ahead q.1 ≡ drop (min k count) (records lines))
unfolding IsPlaced
seek-open_file k header lines r =
    let opened = open_file-IsPlaced header lines r in
    let sought = seek-IsPlaced k (open_file (some (header ∷ lines)) r).1 opened.3 opened.0 in
    (
      sought.3 ∙ ap (λ ls. leb k (length (records ls))) opened.1,
      sought.0.0
          ∙ ap (λ ls. drop (seek k (open_file (some (header ∷ lines)) r).1).1.cursor (records ls))
              (sought.1 ∙ opened.1)
          ∙ ap (λ (c : ℕ). drop c (records lines))
              (sought.2 ∙ ap (λ ls. min k (length (records ls))) opened.1),
    )
