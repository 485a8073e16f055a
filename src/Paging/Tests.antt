-- ===== src/Paging/Tests.antt =====
-- Pages of a short file.
use cancept.Prelude.{ℕ, zero, suc, ◌*◌, ◌<◌, ◌≡◌, List, [], ◌∷◌, none, some, drop, length, take}
use cancept.Paging.{DetailProxy, previous, next, set_session, press_all, current_page, page_count}
use cancept.Paging.Pages.{pages, turned_all, press_all-set_session}

counting : ℕ → List ℕ
counting zero = []
counting (suc n) = n ∷ counting n

abbrev closed : DetailProxy ℕ
closed = record { reader = none; page_offset = 0; buffer = [] }

press_all-set_session_example :
    let shown =
      press_all (next ∷ next ∷ next ∷ previous ∷ []) (set_session (some (counting 450)) closed) in
    let k = turned_all (pages (length (counting 450))) (next ∷ next ∷ next ∷ previous ∷ []) 0 in
    (k < pages (length (counting 450)))
    × (current_page shown ≡ suc k)
    × (page_count shown ≡ pages (length (counting 450)))
    × (shown.buffer ≡ take 200 (drop (k * 200) (counting 450)))
press_all-set_session_example =
    press_all-set_session (counting 450) (next ∷ next ∷ next ∷ previous ∷ []) closed
