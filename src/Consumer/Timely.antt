-- ===== src/Consumer/Timely.antt =====
-- No item is sent before its time.
use cancept.Prelude.{
  ℕ, zero, suc, ◌<◌, ◌≡◌, ◌≢◌, sym, ap, subst, Bool, true, false, List, [], ◌∷◌, Option, none, some,
  arith, length, leb, by_test, All,
}
use cancept.Prelude.Int.{ℤ, pos, ◌+ℤ◌, ◌≤ℤ◌, int_laws}
use cancept.Queue.{
  ScheduledItem, ScheduledItemQueue, locked_push, push, release, try_push, locked_pop, pop,
  queue_max_capacity, interrupt,
}
use cancept.Consumer.{
  Phase, idle, looking, holding, reclaiming, due, ended, Worker, request_stop, taken, reclaimed,
  conclude, Step, Run, start_consuming,
}

some-injective : {A : Type 0} (x y : A) → some x ≡ some y → x ≡ y
some-injective x y e = cc

module _ {J : Type 0} where
  -- The item that was given back is still in the queue, or an item in its place.
  unfoldable pub IsPhase : Bool → ℤ → ℕ → Phase J → Type 0
  IsPhase stopping now n idle = Unit
  IsPhase stopping now n looking = Unit
  IsPhase stopping now n (holding item) = Unit
  IsPhase stopping now n (reclaiming item) = 0 < n
  IsPhase stopping now n (due item) = (stopping ≡ false → item.scheduled_at ≤ℤ now)
  IsPhase stopping now n ended = Unit

  unfoldable pub IsTimely : ScheduledItem J × ℤ → Type 0
  IsTimely e = e.0.scheduled_at ≤ℤ e.1

  unfoldable pub IsOrderly : Worker J → Type 0
  unfolding IsPhase IsTimely All
  IsOrderly w = IsPhase w.should_stop w.clock (length w.queue.items) w.phase × All IsTimely w.sent

  locked_push_nonempty :
      (item : ScheduledItem J) (items : List (ScheduledItem J))
      → 0 < length (locked_push item items).1
  unfolding locked_push
  locked_push_nonempty item items =
      by_test (leb queue_max_capacity (length items)) _ _
        (λ (r : Bool × List (ScheduledItem J)). 0 < length r.1) (λ e. omega arith)
        (λ e. omega arith)

  -- A push leaves an item in the queue.
  push_nonempty :
      (item : ScheduledItem J) (q : ScheduledItemQueue J) → 0 < length (push item q).items
  unfolding push release
  push_nonempty item q =
      by_test (locked_push item q.items).0 _ _ (λ (r : ScheduledItemQueue J). 0 < length r.items)
        (λ e. locked_push_nonempty item q.items) (λ e. locked_push_nonempty item q.items)

  try_push_nonempty :
      (item : ScheduledItem J) (q : ScheduledItemQueue J)
      → 0 < length q.items
      → 0 < length (try_push item q).1.items
  unfolding try_push release
  try_push_nonempty item q h =
      by_test (leb queue_max_capacity (length q.items)) _ _
        (λ (r : Bool × ScheduledItemQueue J). 0 < length r.1.items) (λ e. h) (λ e. omega arith)

  try_push_added :
      (item : ScheduledItem J) (q r : ScheduledItemQueue J)
      → try_push item q ≡ (true, r)
      → 0 < length r.items
  unfolding try_push release
  try_push_added item q r =
      by_test (leb queue_max_capacity (length q.items)) _ _
        (λ (s : Bool × ScheduledItemQueue J). s ≡ (true, r) → 0 < length r.items)
        (λ e k. absurd (ground (arith, ap (λ s. s.0) k)))
        (λ e k.
          subst (λ (s : ScheduledItemQueue J). 0 < length s.items) (ap (λ s. s.1) k) (omega arith))

  -- What a pop gets and what it leaves.
  pub pop_lem :
      (xs : List (ScheduledItem J)) (k : ℕ) (o : Option (ScheduledItem J))
      (r : ScheduledItemQueue J)
      → pop (record { items = xs; semaphore = k }) ≡ some (o, r)
      → (k ≡ suc r.semaphore) × (o ≡ (locked_pop xs).0) × (r.items ≡ (locked_pop xs).1)
  unfolding pop
  pop_lem xs zero o r e = cc
  pop_lem xs (suc n) o r e =
      let same =
        some-injective ((locked_pop xs).0, record { items = (locked_pop xs).1; semaphore = n })
          (o, r) e in
      (ap (λ p. suc p.1.semaphore) same, sym (ap (λ p. p.0) same), sym (ap (λ p. p.1.items) same))

  -- A pop that gets nothing finds the queue empty.
  pub pop_nonempty :
      (xs : List (ScheduledItem J)) (k : ℕ) (r : ScheduledItemQueue J)
      → 0 < length xs
      → pop (record { items = xs; semaphore = k }) ≢ some (none, r)
  unfolding locked_pop
  pop_nonempty [] k r h e = absurd (omega arith)
  pop_nonempty (x ∷ xs) k r h e = let parts = pop_lem (x ∷ xs) k none r e in absurd (cc parts.1)

  -- The steps of the other threads.
  others_IsPhase :
      (stopping : Bool) (now : ℤ) (n m : ℕ) (p : Phase J)
      → (0 < n → 0 < m)
      → IsPhase stopping now n p
      → IsPhase stopping now m p
  unfolding IsPhase
  others_IsPhase stopping now n m idle f h = tt
  others_IsPhase stopping now n m looking f h = tt
  others_IsPhase stopping now n m (holding item) f h = tt
  others_IsPhase stopping now n m (reclaiming item) f h = f h
  others_IsPhase stopping now n m (due item) f h = h
  others_IsPhase stopping now n m ended f h = tt

  later_IsPhase :
      (stopping : Bool) (now : ℤ) (d n : ℕ) (p : Phase J)
      → IsPhase stopping now n p
      → IsPhase stopping (now +ℤ pos d) n p
  unfolding IsPhase
  later_IsPhase stopping now d n idle h = tt
  later_IsPhase stopping now d n looking h = tt
  later_IsPhase stopping now d n (holding item) h = tt
  later_IsPhase stopping now d n (reclaiming item) h = h
  later_IsPhase stopping now d n (due item) h = λ e. omega (int_laws, h e)
  later_IsPhase stopping now d n ended h = tt

  stopped_IsPhase :
      (stopping : Bool) (now : ℤ) (n : ℕ) (p : Phase J)
      → IsPhase stopping now n p
      → IsPhase true now n p
  unfolding IsPhase
  stopped_IsPhase stopping now n idle h = tt
  stopped_IsPhase stopping now n looking h = tt
  stopped_IsPhase stopping now n (holding item) h = tt
  stopped_IsPhase stopping now n (reclaiming item) h = h
  stopped_IsPhase stopping now n (due item) h = λ e. ground (arith, e)
  stopped_IsPhase stopping now n ended h = tt

  taken-IsOrderly :
      (o : Option (ScheduledItem J)) (q : ScheduledItemQueue J) (w : Worker J)
      → IsOrderly w
      → IsOrderly (taken o q w)
  unfolding IsOrderly taken
  taken-IsOrderly none q w h = (tt, h.1)
  taken-IsOrderly (some item) q w h = (tt, h.1)

  reclaimed-IsOrderly :
      (item : ScheduledItem J) (o : Option (ScheduledItem J)) (q : ScheduledItemQueue J)
      (w : Worker J)
      → 0 < length w.queue.items
      → pop w.queue ≡ some (o, q)
      → IsOrderly w
      → IsOrderly (reclaimed item o q w)
  unfolding IsOrderly reclaimed
  reclaimed-IsOrderly item none q w n e h =
      absurd (pop_nonempty w.queue.items w.queue.semaphore q n e)
  reclaimed-IsOrderly item (some other) q w n e h = (tt, h.1)

  conclude-IsOrderly :
      (callable : J → Bool) (item : ScheduledItem J) (w : Worker J)
      → (w.should_stop ≡ false → item.scheduled_at ≤ℤ w.clock)
      → All IsTimely w.sent
      → IsOrderly (conclude callable item w)
  unfolding conclude IsOrderly
  conclude-IsOrderly callable item w timely h =
      by_test w.should_stop _ _ IsOrderly (λ e. (tt, h))
        (λ e. by_test (callable item.job) _ _ IsOrderly (λ k. (tt, (timely e, h))) (λ k. (tt, h)))

  pub step-IsOrderly :
      (callable : J → Bool) (v w : Worker J) → Step callable v w → IsOrderly v → IsOrderly w
  unfolding IsOrderly IsPhase request_stop interrupt release
  step-IsOrderly callable _ _ (Step.other_push item w) h =
      (others_IsPhase w.should_stop w.clock _ _ w.phase (λ _. push_nonempty item w.queue) h.0, h.1)
  step-IsOrderly callable _ _ (Step.other_try_push item w) h =
      (others_IsPhase w.should_stop w.clock _ _ w.phase (try_push_nonempty item w.queue) h.0, h.1)
  step-IsOrderly callable _ _ (Step.other_stop w) h =
      (stopped_IsPhase w.should_stop w.clock _ w.phase h.0, h.1)
  step-IsOrderly callable _ _ (Step.time_passes n w) h =
      (later_IsPhase w.should_stop w.clock n _ w.phase h.0, h.1)
  step-IsOrderly callable _ _ (Step.leave w e k) h = (tt, h.1)
  step-IsOrderly callable _ _ (Step.look w e k) h = (tt, h.1)
  step-IsOrderly callable _ _ (Step.take w o q e k) h = taken-IsOrderly o q w h
  step-IsOrderly callable _ _ (Step.arrive w item e k) h = (λ _. ground (arith, k), h.1)
  step-IsOrderly callable _ _ (Step.break_off w item e n k) h = (λ l. absurd (cc), h.1)
  step-IsOrderly callable _ _ (Step.give_back w item earliest q e n o k l m) h =
      (try_push_added item w.queue q m, h.1)
  step-IsOrderly callable _ _ (Step.take_back w item o q e k) h =
      reclaimed-IsOrderly item o q w
        (subst (IsPhase w.should_stop w.clock (length w.queue.items)) e h.0) k h
  step-IsOrderly callable _ _ (Step.call_back w item e) h =
      conclude-IsOrderly callable item w
        (subst (IsPhase w.should_stop w.clock (length w.queue.items)) e h.0) h.1

  -- Whatever the other threads do, and however long the thread sleeps: an item is sent at its time
  -- or later, never before.
  pub run-IsTimely :
      (callable : J → Bool) (q : ScheduledItemQueue J) (now : ℤ) (w : Worker J)
      → Run callable (start_consuming q now) w
      → All IsTimely w.sent
  unfolding start_consuming IsTimely All IsOrderly
  run-IsTimely callable q now w run = (go _ w run (tt, tt)).1
    where
      go : (u w : Worker J) → Run callable u w → IsOrderly u → IsOrderly w
      go _ _ (Run.stop w) h = h
      go _ _ (Run.next u v w run step) h = step-IsOrderly callable v w step (go u v run h)
