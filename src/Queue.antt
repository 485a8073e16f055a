-- ===== src/Queue.antt =====
-- `sending/worker/scheduled_item_queue.cpp`: the queue between the producers of frames and the
-- worker that sends them at their time. `std::priority_queue` keeps its items in an order of its
-- own and gives one of the earliest; here they are a list, and of equal times the first is given.
use cancept.Prelude.{
  ℕ, zero, suc, Bool, true, false, List, [], ◌∷◌, ◌++◌, Option, none, some, leb, length,
  if◌then◌else◌,
}
use cancept.Prelude.Int.{ℤ, ltb_ℤ}
pub mod Laws
pub mod Steps
mod Tests

-- The call `onSend(context)` is the item's `job`.
pub record ScheduledItem (J : Type 0) : Type 0 where
  pub scheduled_at : ℤ
  pub job : J

abbrev pub queue_max_capacity : ℕ
queue_max_capacity = 32

-- `m_items` and the count of `m_semaphore`.
pub record ScheduledItemQueue (J : Type 0) : Type 0 where
  pub items : List (ScheduledItem J)
  pub semaphore : ℕ

module _ {J : Type 0} where
  -- `m_items.top()` and the items without it, for at least one item: an item gives way only to a
  -- later one that is earlier.
  unfoldable pub take_top :
      ScheduledItem J → List (ScheduledItem J) → ScheduledItem J × List (ScheduledItem J)
  take_top best [] = (best, [])
  take_top best (x ∷ xs) =
      let earlier = ltb_ℤ x.scheduled_at best.scheduled_at in
      let rest = take_top (if earlier then x else best) xs in
      (rest.0, (if earlier then best else x) ∷ rest.1)

  unfoldable pub pop_items : List (ScheduledItem J) → List (ScheduledItem J)
  unfolding take_top
  pop_items [] = []
  pop_items (x ∷ xs) = (take_top x xs).1

  unfoldable pub release : ScheduledItemQueue J → ScheduledItemQueue J
  release q = record q { semaphore = suc q.semaphore }

  -- What `push` does under its lock: whether an item more is there, and the items. A full queue
  -- gives up its earliest item.
  unfoldable pub locked_push :
      ScheduledItem J → List (ScheduledItem J) → Bool × List (ScheduledItem J)
  unfolding pop_items
  locked_push item items = elim (leb queue_max_capacity (length items)) [
    | true ↦ (false, item ∷ pop_items items)
    | false ↦ (true, item ∷ items)
  ]

  unfoldable pub push : ScheduledItem J → ScheduledItemQueue J → ScheduledItemQueue J
  unfolding locked_push release
  push item q =
      let added = locked_push item q.items in
      elim added.0 [
        | true ↦ release (record q { items = added.1 })
        | false ↦ record q { items = added.1 }
      ]

  unfoldable pub try_push : ScheduledItem J → ScheduledItemQueue J → Bool × ScheduledItemQueue J
  unfolding release
  try_push item q = elim (leb queue_max_capacity (length q.items)) [
    | true ↦ (false, q)
    | false ↦ (true, release (record q { items = item ∷ q.items }))
  ]

  -- What `pop` does under its lock.
  unfoldable pub locked_pop :
      List (ScheduledItem J) → Option (ScheduledItem J) × List (ScheduledItem J)
  unfolding take_top
  locked_pop [] = (none, [])
  locked_pop (x ∷ xs) = (some (take_top x xs).0, (take_top x xs).1)

  -- `pop` waits while the count is 0: there is no result then.
  unfoldable pub pop :
      ScheduledItemQueue J → Option (Option (ScheduledItem J) × ScheduledItemQueue J)
  unfolding locked_pop
  pop q = elim q.semaphore [
    | zero ↦ none
    | suc n ↦
        some ((locked_pop q.items).0, record { items = (locked_pop q.items).1; semaphore = n })
  ]

  unfoldable pub peek_front : ScheduledItemQueue J → Option ℤ
  unfolding take_top
  peek_front q = elim q.items [ [] ↦ none | x ∷ xs ↦ some (take_top x xs).0.scheduled_at ]

  unfoldable pub interrupt : ScheduledItemQueue J → ScheduledItemQueue J
  unfolding release
  interrupt q = release q

unfoldable pub new_queue : {J : Type 0} → ScheduledItemQueue J
new_queue = record { items = []; semaphore = 0 }
