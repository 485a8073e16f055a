-- ===== src/Paging.antt =====
-- `logging/model/logging_detail_proxy.cpp`: the pages of a recorded file, with the two buttons of
-- `logging_detail_view.cpp` and the position of `can_stream/reader/mdf4_reader.cpp`. A file is the
-- list of its records, all of one type; a record that cannot be read from the disk is not modelled.
use cancept.Prelude.{
  ℕ, zero, suc, ◌+◌, ◌-◌, ◌*◌, ◌/◌, ◌==◌, Bool, true, false, List, [], ◌∷◌, Option, none, some,
  length, drop, ltb, leb, if◌then◌else◌,
}
pub mod Pages
mod Tests

pub record Mdf4Reader (A : Type 0) : Type 0 where
  pub records : List A
  pub cursor : ℕ
  pub opened : Bool

pub record DetailProxy (A : Type 0) : Type 0 where
  pub reader : Option (Mdf4Reader A)
  pub page_offset : ℕ
  pub buffer : List A

abbrev pub detail_page_size : ℕ
detail_page_size = 200

pub data Button : Type 0 where
  previous : Button
  next : Button

module _ {A : Type 0} where
  unfoldable pub record_count : Mdf4Reader A → ℕ
  record_count r = length r.records

  unfoldable pub seek : ℕ → Mdf4Reader A → Bool × Mdf4Reader A
  unfolding record_count
  seek index r = elim r.opened [
    | false ↦ (false, r)
    | true ↦ elim (leb index (record_count r)) [
      | false ↦ (false, r)
      | true ↦ (true, record r { cursor = index })
    ]
  ]

  -- No record is left where `eof` holds.
  unfoldable pub read : Mdf4Reader A → Option A × Mdf4Reader A
  read r = elim r.opened [
    | false ↦ (none, r)
    | true ↦ elim (drop r.cursor r.records) [
      | [] ↦ (none, r)
      | x ∷ rest ↦ (some x, record r { cursor = suc r.cursor })
    ]
  ]

  -- The loop of `loadPage`, for so many records at most.
  unfoldable pub read_page : ℕ → Mdf4Reader A → List A × Mdf4Reader A
  unfolding read
  read_page zero r = ([], r)
  read_page (suc n) r =
      let q = read r in
      let rest = read_page n q.1 in elim q.0 [ none ↦ ([], q.1) | some x ↦ (x ∷ rest.0, rest.1) ]

  unfoldable pub load_page : ℕ → DetailProxy A → DetailProxy A
  unfolding seek read_page
  load_page offset p = elim p.reader [
    | none ↦ p
    | some r ↦
        (let sought = seek offset r in
          elim sought.0 [
            | false ↦ p
            | true ↦
                (let page = read_page detail_page_size sought.1 in
                  record { reader = some page.1; page_offset = offset; buffer = page.0 })
          ])
  ]

  -- `setSessionIndex` with a valid index and the reader of its file, if that can be opened.
  unfoldable pub set_session : Option (List A) → DetailProxy A → DetailProxy A
  unfolding load_page
  set_session none p = record p { reader = none }
  set_session (some records) p =
      load_page 0
        (record p { reader = some (record { records = records; cursor = 0; opened = true }) })

  unfoldable pub has_next_page : DetailProxy A → Bool
  unfolding record_count
  has_next_page p = elim p.reader [
    | none ↦ false
    | some r ↦ ltb (p.page_offset + detail_page_size) (record_count r)
  ]

  unfoldable pub has_prev_page : DetailProxy A → Bool
  has_prev_page p = ltb 0 p.page_offset

  unfoldable pub current_page : DetailProxy A → ℕ
  current_page p = suc (p.page_offset / detail_page_size)

  unfoldable pub page_count : DetailProxy A → ℕ
  unfolding record_count
  page_count p = elim p.reader [
    | none ↦ 1
    | some r ↦
        (if record_count r == 0
          then 1
          else (record_count r + detail_page_size - 1) / detail_page_size)
  ]

  -- What a button does.
  unfoldable pub press : Button → DetailProxy A → DetailProxy A
  unfolding has_prev_page has_next_page current_page load_page
  press previous p = elim (has_prev_page p) [
    | false ↦ p
    | true ↦ load_page ((current_page p - 2) * detail_page_size) p
  ]
  press next p = elim (has_next_page p) [
    | false ↦ p
    | true ↦ load_page (current_page p * detail_page_size) p
  ]

  unfoldable pub press_all : List Button → DetailProxy A → DetailProxy A
  unfolding press
  press_all [] p = p
  press_all (b ∷ bs) p = press_all bs (press b p)
