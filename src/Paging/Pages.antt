-- ===== src/Paging/Pages.antt =====
-- The page that is shown after any buttons.
use cancept.Prelude.{
  ℕ, zero, suc, ◌+◌, ◌-◌, ◌*◌, ◌/◌, ◌≤◌, ◌<◌, ◌≡◌, refl, sym, ap, ◌∙◌, subst, ◌==◌, Bool, true,
  false, List, [], ◌∷◌, Option, none, some, length, drop, take, ltb, leb, ltb→lt, if◌then◌else◌,
  arith, by_test,
}
use cancept.Paging.{
  Mdf4Reader, DetailProxy, Button, previous, next, record_count, seek, read, read_page, load_page,
  set_session, has_next_page, has_prev_page, current_page, page_count, press, press_all,
}

-- How many pages so many records have: one at least.
unfoldable pub pages : ℕ → ℕ
pages n = if n == 0 then 1 else (n + 199) / 200

-- The page that a button leads to, out of so many; pages are counted from 0.
unfoldable pub turned : ℕ → Button → ℕ → ℕ
turned count previous k = k - 1
turned count next k = if ltb (suc k) count then suc k else k

unfoldable pub turned_all : ℕ → List Button → ℕ → ℕ
unfolding turned
turned_all count [] k = k
turned_all count (b ∷ bs) k = turned_all count bs (turned count b k)

-- There is a next page exactly if the records go on behind this one.
next_page : (n k : ℕ) → ltb (suc k) (pages n) ≡ ltb (k * 200 + 200) n
unfolding pages
next_page n k = ground arith

next_offset : (n k : ℕ) → ltb (k * 200 + 200) n ≡ true → suc k * 200 ≤ n
next_offset n k e = let l = ltb→lt _ _ e in omega (arith, l)

first_page : (k : ℕ) → ltb 0 (k * 200) ≡ false → k ≡ k - 1
first_page k e = ground (arith, e)

turned_lt : (n k : ℕ) (b : Button) → 0 < n → k < n → turned n b k < n
unfolding turned
turned_lt n k previous h l = omega (arith, l)
turned_lt n k next h l = ground (arith, l)

turned_all_lt : (n k : ℕ) (bs : List Button) → 0 < n → k < n → turned_all n bs k < n
unfolding turned_all
turned_all_lt n k [] h l = l
turned_all_lt n k (b ∷ bs) h l = turned_all_lt n (turned n b k) bs h (turned_lt n k b h l)

pages_pos : (n : ℕ) → 0 < pages n
unfolding pages
pages_pos n = ground arith

at_most : (n k : ℕ) → n ≤ k → leb n k ≡ true
at_most n k h = ground (arith, h)

module _ {A : Type 0} where
  rest_of : List A → List A
  rest_of [] = []
  rest_of (x ∷ xs) = xs

  drop-suc : (c : ℕ) (xs : List A) → drop (suc c) xs ≡ rest_of (drop c xs)
  unfolding rest_of
  drop-suc zero [] = refl
  drop-suc zero (x ∷ xs) = refl
  drop-suc (suc c) [] = refl
  drop-suc (suc c) (x ∷ xs) = drop-suc c xs

  -- An open file at a position.
  abbrev reader_at : List A → ℕ → Mdf4Reader A
  reader_at xs c = record { records = xs; cursor = c; opened = true }

  read_of : List A → ℕ → List A → Option A × Mdf4Reader A
  read_of xs c left = elim left [
    | [] ↦ (none, reader_at xs c)
    | x ∷ rest ↦ (some x, reader_at xs (suc c))
  ]

  going : ℕ → Option A × Mdf4Reader A → List A × Mdf4Reader A
  going n q = elim q.0 [
    | none ↦ ([], q.1)
    | some x ↦ (x ∷ (read_page n q.1).0, (read_page n q.1).1)
  ]

  -- A page is what stands from the position on.
  read_page-take :
      (n c : ℕ) (xs left : List A)
      → drop c xs ≡ left
      → (d : ℕ) × (read_page n (reader_at xs c) ≡ (take n left, reader_at xs d))
  unfolding read_page read read_of rest_of going
  read_page-take zero c xs left e = (c, refl)
  read_page-take (suc n) c xs [] e = (c, ap (λ l. going n (read_of xs c l)) e)
  read_page-take (suc n) c xs (x ∷ left) e =
      let rest = read_page-take n (suc c) xs left (drop-suc c xs ∙ ap rest_of e) in
      (rest.0, ap (λ l. going n (read_of xs c l)) e ∙ ap (λ p. (x ∷ p.0, p.1)) rest.1)

  abbrev shown_at : List A → ℕ → ℕ → DetailProxy A
  shown_at xs c k = record {
    reader = some (reader_at xs c);
    page_offset = k * 200;
    buffer = take 200 (drop (k * 200) xs);
  }

  -- The proxy shows this page of the file.
  unfoldable pub ShowsPage : List A → ℕ → DetailProxy A → Type 0
  ShowsPage xs k p = (k * 200 ≤ length xs) × ((c : ℕ) × (p ≡ shown_at xs c k))

  sought :
      (xs : List A) (c k : ℕ) → k ≤ length xs → seek k (reader_at xs c) ≡ (true, reader_at xs k)
  unfolding seek record_count
  sought xs c k h =
      ap (λ b. elim b [ false ↦ (false, reader_at xs c) | true ↦ (true, reader_at xs k) ])
        (at_most k (length xs) h)

  loaded : ℕ → DetailProxy A → Bool × Mdf4Reader A → DetailProxy A
  loaded offset p s = elim s.0 [
    | false ↦ p
    | true ↦ record {
      reader = some (read_page 200 s.1).1;
      page_offset = offset;
      buffer = (read_page 200 s.1).0;
    }
  ]

  load_page-ShowsPage :
      (xs : List A) (c k : ℕ) (p : DetailProxy A)
      → p.reader ≡ some (reader_at xs c)
      → k * 200 ≤ length xs
      → ShowsPage xs k (load_page (k * 200) p)
  unfolding load_page ShowsPage loaded
  load_page-ShowsPage xs c k p e h =
      let page = read_page-take 200 (k * 200) xs (drop (k * 200) xs) refl in
      (
        h,
        (
          page.0,
          ap (λ r. elim r [ none ↦ p | some r ↦ loaded (k * 200) p (seek (k * 200) r) ]) e
              ∙ ap (loaded (k * 200) p) (sought xs c (k * 200) h)
              ∙ ap (λ q. record { reader = some q.1; page_offset = k * 200; buffer = q.0 }) page.1,
        ),
      )

  either_page :
      (xs : List A) (b : Bool) (j k : ℕ) (p q : DetailProxy A)
      → (b ≡ true → ShowsPage xs j p)
      → (b ≡ false → ShowsPage xs k q)
      → ShowsPage xs (if b then j else k) (elim b [ true ↦ p | false ↦ q ])
  either_page xs true j k p q f g = f refl
  either_page xs false j k p q f g = g refl

  moved-ShowsPage :
      (xs : List A) (c k j offset : ℕ)
      → offset ≡ j * 200
      → j * 200 ≤ length xs
      → ShowsPage xs j (load_page offset (shown_at xs c k))
  moved-ShowsPage xs c k j offset e h =
      subst (λ (o : ℕ). ShowsPage xs j (load_page o (shown_at xs c k))) (sym e)
        (load_page-ShowsPage xs c j (shown_at xs c k) refl h)

  -- A button turns the page that is shown.
  press-ShowsPage :
      (xs : List A) (c k : ℕ) (b : Button)
      → k * 200 ≤ length xs
      → ShowsPage xs (turned (pages (length xs)) b k) (press b (shown_at xs c k))
  unfolding press turned has_prev_page has_next_page current_page record_count ShowsPage
  press-ShowsPage xs c k previous h =
      by_test (ltb 0 (k * 200)) (load_page ((suc (k * 200 / 200) - 2) * 200) (shown_at xs c k))
        (shown_at xs c k) (ShowsPage xs (k - 1))
        (λ e.
          moved-ShowsPage xs c k (k - 1) ((suc (k * 200 / 200) - 2) * 200) (omega arith)
            (omega (arith, h)))
        (λ e. subst (λ (j : ℕ). ShowsPage xs j (shown_at xs c k)) (first_page k e) (h, (c, refl)))
  press-ShowsPage xs c k next h =
      subst (λ b. ShowsPage xs (if b then suc k else k) (press next (shown_at xs c k)))
        (sym (next_page (length xs) k))
        (either_page xs (ltb (k * 200 + 200) (length xs)) (suc k) k
          (load_page (suc (k * 200 / 200) * 200) (shown_at xs c k)) (shown_at xs c k)
          (λ e.
            moved-ShowsPage xs c k (suc k) (suc (k * 200 / 200) * 200) (omega arith)
              (next_offset (length xs) k e))
          (λ e. (h, (c, refl))))

  press_all-ShowsPage :
      (xs : List A) (k : ℕ) (bs : List Button) (p : DetailProxy A)
      → ShowsPage xs k p
      → ShowsPage xs (turned_all (pages (length xs)) bs k) (press_all bs p)
  unfolding press_all turned_all ShowsPage
  press_all-ShowsPage xs k [] p s = s
  press_all-ShowsPage xs k (b ∷ bs) p (h, (c, e)) =
      press_all-ShowsPage xs (turned (pages (length xs)) b k) bs (press b p) (
        subst (λ q. ShowsPage xs (turned (pages (length xs)) b k) (press b q)) (sym e)
          (press-ShowsPage xs c k b h))

  -- A file is opened, whatever was shown before, and the buttons are pressed in any order. The
  -- page that is shown is then the one that turning pages leads to from the first, where a button
  -- does nothing at an end: it is one of the pages that are counted, the label shows its number
  -- and the count, and the buffer holds its records, in order, at most 200 of them.
  pub press_all-set_session :
      (xs : List A) (bs : List Button) (p : DetailProxy A)
      → let shown = press_all bs (set_session (some xs) p) in
        let k = turned_all (pages (length xs)) bs 0 in
        (k < pages (length xs))
        × (current_page shown ≡ suc k)
        × (page_count shown ≡ pages (length xs))
        × (shown.buffer ≡ take 200 (drop (k * 200) xs))
  unfolding ShowsPage set_session current_page page_count record_count pages
  press_all-set_session xs bs p =
      let k = turned_all (pages (length xs)) bs 0 in
      let (h, (c, e)) =
        press_all-ShowsPage xs 0 bs _ (load_page-ShowsPage xs 0 0 _ refl (omega arith)) in
      (
        turned_all_lt (pages (length xs)) 0 bs (pages_pos (length xs)) (pages_pos (length xs)),
        ap current_page e ∙ ap suc {x = k * 200 / 200} {y = k} (omega arith),
        ap page_count e
            ∙ ap (λ (n : ℕ). if length xs == 0 then 1 else n / 200) {x = length xs + 200 - 1}
                {y = length xs + 199} (omega arith),
        ap (λ q. q.buffer) e,
      )
