-- ===== src/Consumer/Conserved.antt =====
-- What the thread does by itself loses no item and sends none twice.
use cancept.Prelude.{
  ◌<◌, ◌≡◌, refl, sym, ap, ◌∙◌, subst, Bool, true, false, List, [], ◌∷◌, ◌++◌, map, Option, none,
  some, arith, length, leb, by_test, All,
}
use mathlib.Core.List.{Perm, perm_middle}
use mathlib.Core.List.Perm
use cancept.Prelude.Int.{ℤ, pos, ◌+ℤ◌}
use cancept.Queue.{
  ScheduledItem, ScheduledItemQueue, release, try_push, locked_pop, pop, queue_max_capacity,
}
use cancept.Queue.Laws.{Popped, locked_pop-Popped}
use cancept.Consumer.{
  looking, reclaiming, due, Worker, taken, reclaimed, conclude, Step, Run, start_consuming,
}
use cancept.Consumer.Timely.{IsOrderly, step-IsOrderly, IsPhase, pop_lem, pop_nonempty}
use cancept.Consumer.Progress.{IsOwn, OwnRun, waiting, AllCallable, conclude_sends}

contradiction : (b : Bool) → b ≡ true → b ≡ false → ⊥
contradiction b h k = ground (arith, h, k)

module _ {J : Type 0} where
  -- The items that were sent and those that wait.
  unfoldable pub all_items : Worker J → List (ScheduledItem J)
  unfolding waiting
  all_items w = map (λ e. e.0) w.sent ++ waiting w.phase w.queue.items

  -- The thread was not asked to stop, and has all the items of before.
  unfoldable Keeps : Worker J → Worker J → Type 0
  Keeps u v = (v.should_stop ≡ false) × Perm (all_items v) (all_items u)

  -- A step that sends nothing.
  unsent :
      (u v : Worker J)
      → u.should_stop ≡ false
      → v.should_stop ≡ u.should_stop
      → v.sent ≡ u.sent
      → Perm (waiting v.phase v.queue.items) (waiting u.phase u.queue.items)
      → Keeps u v
  unfolding Keeps all_items
  unsent u v run same e p = (
    same ∙ run,
    subst
        (λ s.
          Perm (map (λ e. e.0) s ++ waiting v.phase v.queue.items)
            (map (λ e. e.0) u.sent ++ waiting u.phase u.queue.items))
        (sym e) (Perm.append_left (map (λ e. e.0) u.sent) p),
  )

  -- What a pop gets and leaves is what was there.
  popped :
      (q r : ScheduledItemQueue J) (o : Option (ScheduledItem J))
      → pop q ≡ some (o, r)
      → Popped q.items (o, r.items)
  popped q r o e =
      let parts = pop_lem q.items q.semaphore o r e in
      subst (Popped q.items)
        (sym (ap (λ o. (o, r.items)) parts.1 ∙ ap (λ xs. ((locked_pop q.items).0, xs)) parts.2))
        (locked_pop-Popped q.items)

  taken-Keeps :
      (w : Worker J) (o : Option (ScheduledItem J)) (q : ScheduledItemQueue J)
      → w.should_stop ≡ false
      → w.phase ≡ looking
      → Popped w.queue.items (o, q.items)
      → Keeps w (taken o q w)
  unfolding taken waiting Popped
  taken-Keeps w none q run e p =
      unsent w (taken none q w) run refl refl (rw (e, waiting) (rw (p.0, p.1) (Perm.refl [])))
  taken-Keeps w (some item) q run e p =
      unsent w (taken (some item) q w) run refl refl (rw (e, waiting) p.1)

  reclaimed-Keeps :
      (w : Worker J) (old : ScheduledItem J) (o : Option (ScheduledItem J))
      (q : ScheduledItemQueue J)
      → w.should_stop ≡ false
      → w.phase ≡ reclaiming old
      → 0 < length w.queue.items
      → pop w.queue ≡ some (o, q)
      → Keeps w (reclaimed old o q w)
  unfolding reclaimed waiting Popped
  reclaimed-Keeps w old none q run e n k =
      absurd (pop_nonempty w.queue.items w.queue.semaphore q n k)
  reclaimed-Keeps w old (some item) q run e n k =
      unsent w (reclaimed old (some item) q w) run refl refl
        (rw (e, waiting) (popped w.queue q (some item) k).1)

  conclude-Keeps :
      (callable : J → Bool) (item : ScheduledItem J) (w : Worker J)
      → callable item.job ≡ true
      → w.should_stop ≡ false
      → w.phase ≡ due item
      → Keeps w (conclude callable item w)
  unfolding Keeps all_items waiting
  conclude-Keeps callable item w c run e =
      subst (Keeps w) (sym (conclude_sends callable item w c run)) (
        run,
        subst
            (λ p.
              Perm (item ∷ map (λ e. e.0) w.sent ++ w.queue.items)
                (map (λ e. e.0) w.sent ++ waiting p w.queue.items))
            (sym e) (Perm.symm (perm_middle (map (λ e. e.0) w.sent) w.queue.items)),
      )

  given_back :
      (item : ScheduledItem J) (q r : ScheduledItemQueue J)
      → try_push item q ≡ (true, r)
      → r.items ≡ item ∷ q.items
  unfolding try_push release
  given_back item q r =
      by_test (leb queue_max_capacity (length q.items)) _ _
        (λ (s : Bool × ScheduledItemQueue J). s ≡ (true, r) → r.items ≡ item ∷ q.items)
        (λ e k. absurd (ground (arith, ap (λ s. s.0) k))) (λ e k. sym (ap (λ s. s.1.items) k))

  step-Keeps :
      (callable : J → Bool) (u v : Worker J) (step : Step callable u v)
      → IsOwn step
      → AllCallable callable
      → IsOrderly u
      → u.should_stop ≡ false
      → Keeps u v
  unfolding IsOwn AllCallable IsOrderly IsPhase waiting
  step-Keeps callable _ _ (Step.other_push item w) own c h run = absurd own
  step-Keeps callable _ _ (Step.other_try_push item w) own c h run = absurd own
  step-Keeps callable _ _ (Step.other_stop w) own c h run = absurd own
  step-Keeps callable _ _ (Step.time_passes n w) own c h run =
      unsent w (record w { clock = w.clock +ℤ pos n }) run refl refl (Perm.refl _)
  step-Keeps callable _ _ (Step.leave w e k) own c h run =
      absurd (contradiction w.should_stop k run)
  step-Keeps callable _ _ (Step.look w e k) own c h run =
      unsent w (record w { phase = looking }) run refl refl (rw (e, waiting) (Perm.refl _))
  step-Keeps callable _ _ (Step.take w o q e k) own c h run =
      taken-Keeps w o q run e (popped w.queue q o k)
  step-Keeps callable _ _ (Step.arrive w item e k) own c h run =
      unsent w (record w { phase = due item }) run refl refl (rw (e, waiting) (Perm.refl _))
  step-Keeps callable _ _ (Step.break_off w item e n k) own c h run =
      absurd (contradiction w.should_stop k run)
  step-Keeps callable _ _ (Step.give_back w item earliest q e n o k l m) own c h run =
      unsent w (record w { queue = q; phase = reclaiming item }) run refl refl
        (rw (e, waiting, given_back item w.queue q m) (Perm.refl _))
  step-Keeps callable _ _ (Step.take_back w item o q e k) own c h run =
      reclaimed-Keeps w item o q run e
        (subst (IsPhase w.should_stop w.clock (length w.queue.items)) e h.0) k
  step-Keeps callable _ _ (Step.call_back w item e) own c h run =
      conclude-Keeps callable item w (c item.job) run e

  -- From every state that a run of the thread with others can reach in which no stop was asked for,
  -- whatever the thread does by itself, while time passes and no other thread does anything: the
  -- items that it has sent and those that it has or that are in the queue are the same as before, as
  -- often as before, in some order; it loses none, also when it gives one back to the queue and takes
  -- another, and sends none twice. Every item has a callback.
  pub run-all_items :
      (callable : J → Bool) (q : ScheduledItemQueue J) (now : ℤ) (v w : Worker J)
      → AllCallable callable
      → Run callable (start_consuming q now) v
      → v.should_stop ≡ false
      → OwnRun callable v w
      → Perm (all_items w) (all_items v)
  unfolding start_consuming IsOrderly All Keeps
  run-all_items callable q now v w c run s own = go v w (reached _ v run (tt, tt)) s own
    where
      reached : (u v : Worker J) → Run callable u v → IsOrderly u → IsOrderly v
      reached _ _ (Run.stop w) h = h
      reached _ _ (Run.next u v w run step) h = step-IsOrderly callable v w step (reached u v run h)

      go :
          (v w : Worker J)
          → IsOrderly v
          → v.should_stop ≡ false
          → OwnRun callable v w
          → Perm (all_items w) (all_items v)
      go _ _ h s (OwnRun.stop w) = Perm.refl _
      go _ _ h s (OwnRun.next u v w step own rest) =
          let kept = step-Keeps callable u v step own c h s in
          Perm.trans (go v w (step-IsOrderly callable u v step h) kept.0 rest) kept.1
