-- ===== src/CsvReader/Position.antt =====
-- The reader stands at the record that its cursor counts, whatever is called on it.
use cancept.Prelude.{
  ℕ, zero, suc, ◌+◌, ◌≤◌, ◌<◌, ◌≡◌, refl, sym, ap, ◌∙◌, min, true, false, List, [], ◌∷◌, Option,
  none, some, Bytes, length, length-drop, drop, by_test, arith,
}
use cancept.CsvReader.{
  CsvReader, skip_empty, advance_lookahead, count_records, advance, seek_loop, rewind,
}

-- The records of a file: its lines that are not empty.
unfoldable pub records : List Bytes → List Bytes
records [] = []
records ([] ∷ lines) = records lines
records ((c ∷ cs) ∷ lines) = (c ∷ cs) ∷ records lines

pub count_records-length : (lines : List Bytes) → count_records lines ≡ length (records lines)
unfolding count_records records
count_records-length [] = refl
count_records-length ([] ∷ lines) = count_records-length lines
count_records-length ((c ∷ cs) ∷ lines) = ap suc (count_records-length lines)

-- The records that are still to be read.
unfoldable pub ahead : CsvReader → List Bytes
unfolding records
ahead r = elim r.eof [ true ↦ [] | false ↦ r.next_line ∷ records r.unread ]

unfoldable pub IsPlaced : CsvReader → Type 0
IsPlaced r =
    (ahead r ≡ drop r.cursor (records r.data_lines)) × (r.cursor ≤ length (records r.data_lines))

pub ahead-advance_lookahead : (r : CsvReader) → ahead (advance_lookahead r) ≡ records r.unread
unfolding ahead advance_lookahead skip_empty records
ahead-advance_lookahead r = found r.unread
  where
    found :
        (lines : List Bytes)
        → ahead (elim (skip_empty lines) [
          | none ↦ record r { unread = []; next_line = []; eof = true }
          | some (line, rest) ↦ record r { unread = rest; next_line = line; eof = false }
        ])
          ≡ records lines
    found [] = refl
    found ([] ∷ lines) = found lines
    found ((c ∷ cs) ∷ lines) = refl

-- Moving on does not touch the file, the position or the columns.
unfoldable pub SameFile : CsvReader → CsvReader → Type 0
SameFile q r = (q.data_lines ≡ r.data_lines) × (q.cursor ≡ r.cursor) × (q.opened ≡ r.opened)

pub advance_lookahead-SameFile : (r : CsvReader) → SameFile (advance_lookahead r) r
unfolding SameFile advance_lookahead
advance_lookahead-SameFile r = kept (skip_empty r.unread)
  where
    kept :
        (o : Option (Bytes × List Bytes))
        → SameFile
            (elim o [
              | none ↦ record r { unread = []; next_line = []; eof = true }
              | some (line, rest) ↦ record r { unread = rest; next_line = line; eof = false }
            ])
            r
    kept none = (refl, refl, refl)
    kept (some (line, rest)) = (refl, refl, refl)

drop-cons :
    (k : ℕ) (xs : List Bytes) (y : Bytes) (ys : List Bytes)
    → y ∷ ys ≡ drop k xs
    → (ys ≡ drop (suc k) xs) × (k < length xs)
drop-cons zero [] y ys e = ground arith
drop-cons zero (x ∷ xs) y ys e = (ground arith, omega arith)
drop-cons (suc k) [] y ys e = ground arith
drop-cons (suc k) (x ∷ xs) y ys e =
    ((drop-cons k xs y ys e).0, omega (arith, (drop-cons k xs y ys e).1))

drop-nil : (k : ℕ) (xs : List Bytes) → [] ≡ drop k xs → length xs ≤ k
drop-nil k xs e = omega (arith, length-drop k xs, ap length e)

ahead_open : (r : CsvReader) → r.eof ≡ false → ahead r ≡ r.next_line ∷ records r.unread
unfolding ahead
ahead_open r e = rw (e, ahead) refl

ahead_end : (r : CsvReader) → r.eof ≡ true → ahead r ≡ []
unfolding ahead
ahead_end r e = rw (e, ahead) refl

-- A reader that is not at its end moves to the next record.
advance-IsPlaced :
    (r : CsvReader)
    → r.eof ≡ false
    → IsPlaced r
    → IsPlaced (advance r)
      × ((advance r).data_lines ≡ r.data_lines)
      × ((advance r).cursor ≡ suc r.cursor)
      × ((advance r).opened ≡ r.opened)
      × (r.cursor < length (records r.data_lines))
unfolding IsPlaced advance SameFile ahead
advance-IsPlaced r e h =
    let same = advance_lookahead-SameFile r in
    let now : r.next_line ∷ records r.unread ≡ drop r.cursor (records r.data_lines) =
      sym (ahead_open r e) ∙ h.0 in
    let next = drop-cons r.cursor (records r.data_lines) r.next_line (records r.unread) now in
    (
      (
        ahead-advance_lookahead r
            ∙ next.0
            ∙ ap (λ ls. drop (suc r.cursor) (records ls)) (sym same.0),
        omega (arith, next.1, ap (λ ls. length (records ls)) same.0),
      ),
      same.0,
      refl,
      same.2,
      next.1,
    )

-- The loop goes `n` records further, or to the end.
pub seek_loop-IsPlaced :
    (n : ℕ) (r : CsvReader)
    → IsPlaced r
    → IsPlaced (seek_loop n r)
      × ((seek_loop n r).data_lines ≡ r.data_lines)
      × ((seek_loop n r).cursor ≡ min (r.cursor + n) (length (records r.data_lines)))
unfolding seek_loop IsPlaced
seek_loop-IsPlaced zero r h = (h, refl, omega (arith, h.1))
seek_loop-IsPlaced (suc n) r h =
    by_test r.eof _ _
      (λ q.
        IsPlaced q
        × (q.data_lines ≡ r.data_lines)
        × (q.cursor ≡ min (r.cursor + suc n) (length (records r.data_lines))))
      (λ e. (
        h,
        refl,
        omega (arith, h.1, drop-nil r.cursor (records r.data_lines) (sym (ahead_end r e) ∙ h.0)),
      ))
      (λ e.
        let on = advance-IsPlaced r e h in
        let rest = seek_loop-IsPlaced n (advance r) on.0 in
        (
          rest.0,
          rest.1 ∙ on.1,
          omega (arith, rest.2, on.2, on.4, ap (λ ls. length (records ls)) on.1),
        ))

pub rewind-IsPlaced :
    (r : CsvReader)
    → IsPlaced (rewind r) × ((rewind r).data_lines ≡ r.data_lines) × ((rewind r).cursor ≡ 0)
unfolding rewind IsPlaced SameFile
rewind-IsPlaced r =
    let start : CsvReader = record r { unread = r.data_lines; cursor = 0 } in
    let same = advance_lookahead-SameFile start in
    (
      (
        ahead-advance_lookahead start
            ∙ sym (ap (λ ls. records ls) same.0)
            ∙ ap (λ (k : ℕ). drop k (records (rewind r).data_lines)) (sym same.1),
        omega (arith, same.1),
      ),
      same.0,
      same.1,
    )
