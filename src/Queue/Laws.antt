-- ===== src/Queue/Laws.antt =====
-- The item that leaves is an earliest one, and the others stay.
use cancept.Prelude.{
  ℕ, suc, ◌≤◌, ◌<◌, ◌≡◌, refl, ap, Bool, true, false, List, [], ◌∷◌, Option, none, some, length,
  leb, leb→le, if◌then◌else◌, by_test, All, arith,
}
use cancept.Prelude.Int.{ltb_ℤ, ◌≤ℤ◌}
use mathlib.Core.List.{Perm}
use mathlib.Core.List.Perm
use cancept.Queue.{ScheduledItem, queue_max_capacity, take_top, pop_items, locked_push, locked_pop}

-- One item more, or as many as before.
unfoldable pub Added : Bool → ℕ → ℕ → Type 0
Added true before after = after ≡ suc before
Added false before after = after ≡ before

module _ {J : Type 0} where
  take_top-Perm :
      (b : ScheduledItem J) (xs : List (ScheduledItem J))
      → Perm ((take_top b xs).0 ∷ (take_top b xs).1) (b ∷ xs)
  unfolding take_top
  take_top-Perm b [] = Perm.refl _
  take_top-Perm b (x ∷ xs) =
      step_Perm (ltb_ℤ x.scheduled_at b.scheduled_at) (take_top-Perm b xs) (take_top-Perm x xs)
    where
      step_Perm :
          (c : Bool)
          → Perm ((take_top b xs).0 ∷ (take_top b xs).1) (b ∷ xs)
          → Perm ((take_top x xs).0 ∷ (take_top x xs).1) (x ∷ xs)
          → Perm
              ((take_top (if c then x else b) xs).0
                ∷ (if c then b else x)
                ∷ (take_top (if c then x else b) xs).1)
              (b ∷ x ∷ xs)
      step_Perm true h k = Perm.trans (Perm.swap _ _ _) (Perm.cons b k)
      step_Perm false h k =
          Perm.trans (Perm.swap _ _ _) (Perm.trans (Perm.cons x h) (Perm.swap _ _ _))

  -- `x` is not before `b`.
  abbrev pub NotBefore : ScheduledItem J → ScheduledItem J → Type 0
  NotBefore b x = b.scheduled_at ≤ℤ x.scheduled_at

  take_top-All :
      (b : ScheduledItem J) (xs : List (ScheduledItem J))
      → All (NotBefore (take_top b xs).0) (b ∷ xs)
  unfolding take_top All
  take_top-All b [] = (omega arith, tt)
  take_top-All b (x ∷ xs) =
      step_All (ltb_ℤ x.scheduled_at b.scheduled_at) (λ e. ground arith) (λ e. ground arith)
        (take_top-All b xs) (take_top-All x xs)
    where
      step_All :
          (c : Bool)
          → (c ≡ true → x.scheduled_at ≤ℤ b.scheduled_at)
          → (c ≡ false → b.scheduled_at ≤ℤ x.scheduled_at)
          → All (NotBefore (take_top b xs).0) (b ∷ xs)
          → All (NotBefore (take_top x xs).0) (x ∷ xs)
          → All (NotBefore (take_top (if c then x else b) xs).0) (b ∷ x ∷ xs)
      step_All true t f h k = (omega (arith, t refl, k.0), (k.0, k.1))
      step_All false t f h k = (h.0, (omega (arith, f refl, h.0), h.1))

  pub length-take_top :
      (b : ScheduledItem J) (xs : List (ScheduledItem J)) → length (take_top b xs).1 ≡ length xs
  unfolding take_top
  length-take_top b [] = refl
  length-take_top b (x ∷ xs) =
      ap suc (length-take_top (if ltb_ℤ x.scheduled_at b.scheduled_at then x else b) xs)

  length-pop_items :
      (items : List (ScheduledItem J))
      → 0 < length items
      → suc (length (pop_items items)) ≡ length items
  unfolding pop_items
  length-pop_items [] h = absurd (omega arith)
  length-pop_items (x ∷ xs) h = ap suc (length-take_top x xs)

  pub locked_push-Added :
      (item : ScheduledItem J) (items : List (ScheduledItem J))
      → length items ≤ queue_max_capacity
      → (length (locked_push item items).1 ≤ queue_max_capacity)
        × Added (locked_push item items).0 (length items) (length (locked_push item items).1)
  unfolding locked_push Added
  locked_push-Added item items h =
      by_test (leb queue_max_capacity (length items)) _ _
        (λ (r : Bool × List (ScheduledItem J)).
          (length r.1 ≤ queue_max_capacity) × Added r.0 (length items) (length r.1))
        (λ e. ground (arith, length-pop_items items, leb→le queue_max_capacity (length items) e))
        (λ e. (ground arith, refl))

  -- The result of a pop: an earliest item and the others, or nothing if there is none.
  unfoldable pub Popped :
      List (ScheduledItem J) → Option (ScheduledItem J) × List (ScheduledItem J) → Type 0
  unfolding All
  Popped items (none, left) = (items ≡ []) × (left ≡ [])
  Popped items (some item, left) = All (NotBefore item) items × Perm (item ∷ left) items

  pub locked_pop-Popped : (items : List (ScheduledItem J)) → Popped items (locked_pop items)
  unfolding locked_pop Popped
  locked_pop-Popped [] = (refl, refl)
  locked_pop-Popped (x ∷ xs) = (take_top-All x xs, take_top-Perm x xs)
