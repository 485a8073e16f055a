-- ===== src/CsvWriter/Reading.antt =====
-- A file of frames of one kind, read to its end by `CsvReader`.
use cancept.Prelude.{
  ℕ, zero, suc, ◌<◌, ◌≡◌, refl, sym, true, false, ap, ◌∙◌, subst, List, [], ◌∷◌, ◌++◌, map, Option,
  none, some, Bytes, length, All, arith,
}
use cancept.CsvReader.{CsvReader, skip_empty, advance_lookahead, advance}

-- The frames that so many calls of `read` return, up to the first that fails.
unfoldable pub read_frames :
    {A : Type 0} → (CsvReader → Option A × CsvReader) → ℕ → CsvReader → List A
read_frames read zero r = []
read_frames read (suc n) r =
    let q = read r in
    let rest = read_frames read n q.1 in elim q.0 [ none ↦ [] | some m ↦ m ∷ rest ]

-- The reader after so many calls of `read`, whether they fail or not.
unfoldable pub after_calls :
    {A : Type 0} → (CsvReader → Option A × CsvReader) → ℕ → CsvReader → CsvReader
after_calls read zero r = r
after_calls read (suc n) r = after_calls read n (read r).1

read_frames-some :
    {A : Type 0} (read : CsvReader → Option A × CsvReader) (n : ℕ) (r q : CsvReader) (m : A)
    → read r ≡ (some m, q)
    → read_frames read (suc n) r ≡ m ∷ read_frames read n q
unfolding read_frames
read_frames-some read n r q m e =
    ap (λ p. elim p.0 [ none ↦ [] | some m ↦ m ∷ read_frames read n p.1 ]) e

pub read_frames-none :
    {A : Type 0} (read : CsvReader → Option A × CsvReader) (n : ℕ) (r : CsvReader)
    → (read r).0 ≡ none
    → read_frames read (suc n) r ≡ []
unfolding read_frames
read_frames-none read n r e =
    ap (λ o. elim o [ none ↦ [] | some m ↦ m ∷ read_frames read n (read r).1 ]) e

pub IsFilled : Bytes → Type 0
IsFilled [] = ⊥
IsFilled (c ∷ cs) = Unit

pub IsFilled-comma : (t s : Bytes) → IsFilled (t ++ 44 ∷ s)
unfolding IsFilled
IsFilled-comma [] s = tt
IsFilled-comma (c ∷ t) s = tt

skip_empty-IsFilled :
    (line : Bytes) (lines : List Bytes)
    → IsFilled line
    → skip_empty (line ∷ lines) ≡ some (line, lines)
unfolding skip_empty IsFilled
skip_empty-IsFilled [] lines h = absurd h
skip_empty-IsFilled (c ∷ cs) lines h = refl

-- A reader that has this line before it, and these behind it.
abbrev pub placed : CsvReader → Bytes → List Bytes → ℕ → CsvReader
placed r line lines cursor = record r {
  unread = lines;
  next_line = line;
  eof = false;
  cursor = cursor;
}

looked : Option (Bytes × List Bytes) → CsvReader → CsvReader
looked o r = elim o [
  | none ↦ record r { unread = []; next_line = []; eof = true }
  | some (line, lines) ↦ placed r line lines r.cursor
]

-- What a reader has to be for the frames to be read does not depend on its place.
module _ (IsFor : CsvReader → Type 0)
    (kept : (r : CsvReader) (line : Bytes) (lines : List Bytes) (cursor : ℕ)
      → IsFor r
      → IsFor (placed r line lines cursor)) where
  -- The reader stands in front of these lines.
  unfoldable pub StandsAt : List Bytes → CsvReader → Type 0
  StandsAt [] r = Unit
  StandsAt (line ∷ lines) r = IsFor r × (r.eof ≡ false) × (r.next_line ≡ line) × (r.unread ≡ lines)

  looked-StandsAt :
      (r : CsvReader) (line : Bytes) (lines : List Bytes) (cursor : ℕ)
      → IsFor r
      → IsFilled line
      → r.unread ≡ line ∷ lines
      → StandsAt (line ∷ lines) (record (advance_lookahead r) { cursor = cursor })
  unfolding advance_lookahead StandsAt looked
  looked-StandsAt r line lines cursor h f u =
      subst (λ s. StandsAt (line ∷ lines) (record (looked s r) { cursor = cursor }))
        (sym (ap skip_empty u ∙ skip_empty-IsFilled line lines f))
        (kept r line lines cursor h, refl, refl, refl)

  pub advance_lookahead-StandsAt :
      (r : CsvReader) (line : Bytes) (lines : List Bytes)
      → IsFor r
      → IsFilled line
      → r.unread ≡ line ∷ lines
      → StandsAt (line ∷ lines) (advance_lookahead r)
  advance_lookahead-StandsAt r line lines h f u =
      looked-StandsAt r line lines (advance_lookahead r).cursor h f u

  -- Frames of type `A` with their lines, of which the writable ones are read as `as_read` says.
  module _ {A : Type 0} (read : CsvReader → Option A × CsvReader) (line : A → Bytes)
      (as_read : A → A) (IsWritable : A → Type 0) (filled : (m : A) → IsFilled (line m))
      (reads : (r : CsvReader) (m : A)
        → IsFor r
        → r.eof ≡ false
        → r.next_line ≡ line m
        → IsWritable m
        → read r ≡ (some (as_read m), advance r)) where
    reads-StandsAt :
        (r : CsvReader) (m : A) (lines : List Bytes)
        → IsWritable m
        → StandsAt (line m ∷ lines) r
        → read r ≡ (some (as_read m), advance r)
    unfolding StandsAt
    reads-StandsAt r m lines h (f, e, l, u) = reads r m f e l h

    advance-StandsAt :
        (r : CsvReader) (first : Bytes) (m : A) (ms : List A)
        → StandsAt (first ∷ map line (m ∷ ms)) r
        → StandsAt (map line (m ∷ ms)) (advance r)
    unfolding advance StandsAt
    advance-StandsAt r first m ms (f, e, l, u) =
        looked-StandsAt r (line m) (map line ms) (suc r.cursor) f (filled m) u

    -- The reader that stands at the lines of these frames returns them one by one.
    pub read_frames-map :
        (ms : List A) (r : CsvReader)
        → All IsWritable ms
        → StandsAt (map line ms) r
        → read_frames read (length ms) r ≡ map as_read ms
    unfolding All read_frames
    read_frames-map [] r h s = refl
    read_frames-map (m ∷ []) r h s =
        read_frames-some read 0 r (advance r) (as_read m) (reads-StandsAt r m [] h.0 s)
    read_frames-map (m ∷ n ∷ ms) r h s =
        read_frames-some read (suc (length ms)) r (advance r) (as_read m)
          (reads-StandsAt r m _ h.0 s)
        ∙ ap (λ rest. as_read m ∷ rest)
            (read_frames-map (n ∷ ms) (advance r) h.1 (advance-StandsAt r _ n ms s))

    -- The frames in front of one at which `read` fails.
    pub read_frames-append :
        (m : A)
        → ((r : CsvReader) → IsFor r → r.eof ≡ false → r.next_line ≡ line m → (read r).0 ≡ none)
        → (ms rest : List A) (n : ℕ) (r : CsvReader) → All IsWritable ms
        → length ms < n
        → StandsAt (map line (ms ++ m ∷ rest)) r
        → read_frames read n r ≡ map as_read ms
    unfolding All StandsAt
    read_frames-append m fails ms rest zero r h l s = absurd (omega (arith, l))
    read_frames-append m fails [] rest (suc n) r h l (f, e, k, u) =
        read_frames-none read n r (fails r f e k)
    read_frames-append m fails (x ∷ []) rest (suc n) r h l s =
        read_frames-some read n r (advance r) (as_read x) (reads-StandsAt r x _ h.0 s)
        ∙ ap (λ q. as_read x ∷ q)
            (read_frames-append m fails [] rest n (advance r) tt (omega (arith, l))
              (advance-StandsAt r _ m rest s))
    read_frames-append m fails (x ∷ y ∷ ms) rest (suc n) r h l s =
        read_frames-some read n r (advance r) (as_read x) (reads-StandsAt r x _ h.0 s)
        ∙ ap (λ q. as_read x ∷ q)
            (read_frames-append m fails (y ∷ ms) rest n (advance r) h.1 (omega (arith, l))
              (advance-StandsAt r _ y (ms ++ m ∷ rest) s))
