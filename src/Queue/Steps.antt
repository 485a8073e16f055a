-- ===== src/Queue/Steps.antt =====
-- The queue under any number of threads: its operations cut where another thread can run, which is
-- between the lock of the items and the semaphore.
use cancept.Prelude.{
  ℕ, suc, ◌+◌, ◌-◌, ◌≤◌, ◌<◌, ◌≡◌, refl, ap, Bool, true, false, List, [], ◌∷◌, Option, none, some,
  length, arith,
}
use cancept.Queue.{ScheduledItem, queue_max_capacity, locked_push, locked_pop}
use cancept.Queue.Laws.{length-take_top, Added, locked_push-Added, Popped, locked_pop-Popped}

-- The queue with the number of threads that are between their two halves: of a push that has added
-- an item, and of a pop that has passed the semaphore; and the interrupts that no pop has answered.
pub record Shared (J : Type 0) : Type 0 where
  pub items : List (ScheduledItem J)
  pub semaphore : ℕ
  pub releasing : ℕ
  pub taking : ℕ
  pub interrupts : ℕ

module _ {J : Type 0} where
  unfoldable pub after_push : Bool → Shared J → Shared J
  after_push true s = record s { releasing = suc s.releasing }
  after_push false s = s

  -- An empty pop answers an interrupt.
  unfoldable pub after_pop : Option (ScheduledItem J) → Shared J → Shared J
  after_pop none s = record s { interrupts = s.interrupts - 1 }
  after_pop (some item) s = s

  -- One step of one thread.
  pub data Step : Shared J → Shared J → Type 0 where
    lock_push :
        (item : ScheduledItem J) (s : Shared J)
        → Step s (
            after_push
              (locked_push item s.items).0
              (record s { items = (locked_push item s.items).1 }))
    end_push :
        (s : Shared J) (n : ℕ)
        → s.releasing ≡ suc n
        → Step s (record s { releasing = n; semaphore = suc s.semaphore })
    interrupt :
        (s : Shared J)
        → Step s (record s { semaphore = suc s.semaphore; interrupts = suc s.interrupts })
    acquire :
        (s : Shared J) (n : ℕ)
        → s.semaphore ≡ suc n
        → Step s (record s { semaphore = n; taking = suc s.taking })
    lock_pop :
        (s : Shared J) (n : ℕ)
        → s.taking ≡ suc n
        → Step s (
            after_pop
              (locked_pop s.items).0
              (record s { items = (locked_pop s.items).1; taking = n }))

  pub data Run : Shared J → Shared J → Type 0 where
    stop : (s : Shared J) → Run s s
    next : (r s t : Shared J) → Run r s → Step s t → Run r t

  unfoldable pub IsCounted : Shared J → Type 0
  IsCounted s =
      (length s.items ≤ queue_max_capacity)
      × (s.semaphore + s.releasing + s.taking ≡ length s.items + s.interrupts)

  after_push-IsCounted :
      (b : Bool) (s : Shared J) (items : List (ScheduledItem J))
      → IsCounted s
      → length items ≤ queue_max_capacity
      → Added b (length s.items) (length items)
      → IsCounted (after_push b (record s { items = items }))
  unfolding IsCounted after_push Added
  after_push-IsCounted true s items h room added = (room, omega (arith, h.1, added))
  after_push-IsCounted false s items h room added = (room, omega (arith, h.1, added))

  after_pop-IsCounted :
      (s : Shared J) (n : ℕ) (items : List (ScheduledItem J))
      → IsCounted s
      → s.items ≡ items
      → s.taking ≡ suc n
      → IsCounted
          (after_pop (locked_pop items).0 (record s { items = (locked_pop items).1; taking = n }))
  unfolding IsCounted after_pop locked_pop
  after_pop-IsCounted s n [] h e k = (omega arith, omega (arith, h.1, ap length e))
  after_pop-IsCounted s n (x ∷ xs) h e k = (
    omega (arith, h.0, ap length e, length-take_top x xs),
    omega (arith, h.1, ap length e, length-take_top x xs),
  )

  pub step-IsCounted : (s t : Shared J) → Step s t → IsCounted s → IsCounted t
  unfolding IsCounted
  step-IsCounted _ _ (lock_push item s) h =
      let added = locked_push-Added item s.items h.0 in
      after_push-IsCounted (locked_push item s.items).0 s (locked_push item s.items).1 h added.0
        added.1
  step-IsCounted _ _ (end_push s n e) h = (h.0, omega (arith, h.1))
  step-IsCounted _ _ (interrupt s) h = (h.0, omega (arith, h.1))
  step-IsCounted _ _ (acquire s n e) h = (h.0, omega (arith, h.1))
  step-IsCounted _ _ (lock_pop s n e) h = after_pop-IsCounted s n s.items h refl e

  unfoldable pub start : Shared J
  start = record { items = []; semaphore = 0; releasing = 0; taking = 0; interrupts = 0 }

  -- Whatever the threads do, the queue holds at most 32 items, and the count of the semaphore, the
  -- items that are to be announced and the pops that are to take theirs are together as many as the
  -- items and the interrupts that no pop has answered.
  pub run-IsCounted : (s : Shared J) → Run start s → IsCounted s
  unfolding IsCounted start
  run-IsCounted s run = go start s run (omega arith, omega arith)
    where
      go : (r s : Shared J) → Run r s → IsCounted r → IsCounted s
      go _ _ (stop s) h = h
      go _ _ (next r s t run step) h = step-IsCounted s t step (go r s run h)

  -- What a pop that has passed the semaphore finds under its lock.
  unfoldable pub Served : Shared J → Option (ScheduledItem J) × List (ScheduledItem J) → Type 0
  unfolding Popped
  Served s (none, left) = 0 < s.interrupts
  Served s (some item, left) = Popped s.items (some item, left)

  served :
      (s : Shared J) (r : Option (ScheduledItem J) × List (ScheduledItem J)) (n : ℕ)
      → IsCounted s
      → s.taking ≡ suc n
      → Popped s.items r
      → Served s r
  unfolding IsCounted Served Popped
  served s (none, left) n h e p = omega (arith, h.1, ap length p.0)
  served s (some item, left) n h e p = p

  -- Whatever the threads have done, a pop that has passed the semaphore takes an item that none of
  -- the queue is before, and leaves the others; it finds the queue empty only if there was an
  -- interrupt that no pop has answered.
  pub run-Served :
      (s : Shared J) (n : ℕ) → Run start s → s.taking ≡ suc n → Served s (locked_pop s.items)
  run-Served s n run e =
      served s (locked_pop s.items) n (run-IsCounted s run) e (locked_pop-Popped s.items)
