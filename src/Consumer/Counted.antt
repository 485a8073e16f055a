-- ===== src/Consumer/Counted.antt =====
-- There is always a count for each item of the queue.
use cancept.Prelude.{
  ℕ, suc, ◌≤◌, ◌≡◌, refl, sym, ap, subst, Bool, true, false, List, [], ◌∷◌, Option, none, some,
  arith, length, leb, by_test,
}
use cancept.Queue.{
  ScheduledItem, ScheduledItemQueue, locked_push, push, release, try_push, locked_pop, pop,
  queue_max_capacity, interrupt,
}
use cancept.Queue.Laws.{Added, locked_push-Added, length-take_top}
use cancept.Consumer.{Worker, request_stop, taken, reclaimed, conclude, Step}
use cancept.Consumer.Timely.{pop_lem}

pushed_count : (b : Bool) (n m k : ℕ) → b ≡ true → Added b n m → n ≤ k → m ≤ suc k
unfolding Added
pushed_count true n m k e h l = omega (arith, h, l)
pushed_count false n m k e h l = absurd (ground (arith, e))

replaced_count : (b : Bool) (n m k : ℕ) → b ≡ false → Added b n m → n ≤ k → m ≤ k
unfolding Added
replaced_count true n m k e h l = absurd (ground (arith, e))
replaced_count false n m k e h l = omega (arith, h, l)

module _ {J : Type 0} where
  -- There is a count for each item.
  unfoldable pub IsCounted : ScheduledItemQueue J → Type 0
  IsCounted q = (length q.items ≤ queue_max_capacity) × (length q.items ≤ q.semaphore)

  push-IsCounted :
      (item : ScheduledItem J) (q : ScheduledItemQueue J) → IsCounted q → IsCounted (push item q)
  unfolding push release IsCounted Added
  push-IsCounted item q h =
      let added = locked_push-Added item q.items h.0 in
      by_test (locked_push item q.items).0 _ _ IsCounted
        (λ e. (added.0, pushed_count (locked_push item q.items).0 _ _ _ e added.1 h.1))
        (λ e. (added.0, replaced_count (locked_push item q.items).0 _ _ _ e added.1 h.1))

  try_push-IsCounted :
      (item : ScheduledItem J) (q : ScheduledItemQueue J)
      → IsCounted q
      → IsCounted (try_push item q).1
  unfolding try_push release IsCounted
  try_push-IsCounted item q h =
      by_test (leb queue_max_capacity (length q.items)) _ _
        (λ (r : Bool × ScheduledItemQueue J). IsCounted r.1) (λ e. h)
        (λ e. (ground (arith, e), omega (arith, h.1)))

  more_counts :
      (q : ScheduledItemQueue J)
      → IsCounted q
      → IsCounted (record q { semaphore = suc q.semaphore })
  unfolding IsCounted
  more_counts q h = (h.0, omega (arith, h.1))

  shorter :
      (x : ScheduledItem J) (xs : List (ScheduledItem J))
      → suc (length (locked_pop (x ∷ xs)).1) ≡ length (x ∷ xs)
  unfolding locked_pop
  shorter x xs = ap suc (length-take_top x xs)

  pop-IsCounted :
      (xs : List (ScheduledItem J)) (k : ℕ) (o : Option (ScheduledItem J))
      (r : ScheduledItemQueue J)
      → pop (record { items = xs; semaphore = k }) ≡ some (o, r)
      → IsCounted (record { items = xs; semaphore = k })
      → IsCounted r
  unfolding IsCounted locked_pop
  pop-IsCounted [] k o r e h =
      let parts = pop_lem [] k o r e in
      (omega (arith, ap length parts.2), omega (arith, ap length parts.2))
  pop-IsCounted (x ∷ xs) k o r e h =
      let parts = pop_lem (x ∷ xs) k o r e in
      (
        omega (arith, ap length parts.2, shorter x xs, h.0),
        omega (arith, ap length parts.2, shorter x xs, parts.0, h.1),
      )

  taken-IsCounted :
      (o : Option (ScheduledItem J)) (q : ScheduledItemQueue J) (w : Worker J)
      → IsCounted q
      → IsCounted (taken o q w).queue
  unfolding taken
  taken-IsCounted none q w h = h
  taken-IsCounted (some item) q w h = h

  reclaimed-IsCounted :
      (item : ScheduledItem J) (o : Option (ScheduledItem J)) (q : ScheduledItemQueue J)
      (w : Worker J)
      → IsCounted q
      → IsCounted (reclaimed item o q w).queue
  unfolding reclaimed
  reclaimed-IsCounted item none q w h = h
  reclaimed-IsCounted item (some other) q w h = h

  conclude_queue :
      (callable : J → Bool) (item : ScheduledItem J) (w : Worker J)
      → (conclude callable item w).queue ≡ w.queue
  unfolding conclude
  conclude_queue callable item w =
      by_test w.should_stop _ _ (λ (v : Worker J). v.queue ≡ w.queue) (λ e. refl)
        (λ e.
          by_test (callable item.job) _ _ (λ (v : Worker J). v.queue ≡ w.queue) (λ k. refl)
            (λ k. refl))

  pub step-IsCounted :
      (callable : J → Bool) (v w : Worker J)
      → Step callable v w
      → IsCounted v.queue
      → IsCounted w.queue
  unfolding request_stop interrupt release
  step-IsCounted callable _ _ (Step.other_push item w) h = push-IsCounted item w.queue h
  step-IsCounted callable _ _ (Step.other_try_push item w) h = try_push-IsCounted item w.queue h
  step-IsCounted callable _ _ (Step.other_stop w) h = more_counts w.queue h
  step-IsCounted callable _ _ (Step.time_passes n w) h = h
  step-IsCounted callable _ _ (Step.leave w e k) h = h
  step-IsCounted callable _ _ (Step.look w e k) h = h
  step-IsCounted callable _ _ (Step.take w o q e k) h =
      taken-IsCounted o q w (pop-IsCounted w.queue.items w.queue.semaphore o q k h)
  step-IsCounted callable _ _ (Step.arrive w item e k) h = h
  step-IsCounted callable _ _ (Step.break_off w item e n k) h = h
  step-IsCounted callable _ _ (Step.give_back w item earliest q e n o k l m) h =
      subst IsCounted (ap (λ r. r.1) m) (try_push-IsCounted item w.queue h)
  step-IsCounted callable _ _ (Step.take_back w item o q e k) h =
      reclaimed-IsCounted item o q w (pop-IsCounted w.queue.items w.queue.semaphore o q k h)
  step-IsCounted callable _ _ (Step.call_back w item e) h =
      subst IsCounted (sym (conclude_queue callable item w)) h
