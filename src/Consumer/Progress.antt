-- ===== src/Consumer/Progress.antt =====
-- As long as the thread is not asked to stop, it can go on by itself to send one of the items that
-- wait.
use cancept.Prelude.{ℕ, ◌<◌, ◌≡◌, ap, ◌∙◌, Bool, true, false, List, ◌∷◌}
use mathlib.Core.List.{Perm}
use mathlib.Core.List.Perm
use cancept.Queue.{ScheduledItem}
use cancept.Consumer.{Phase, idle, looking, holding, reclaiming, due, ended, Worker, conclude, Step}

module _ {J : Type 0} where
  -- A step of the thread itself, or time that passes: not one of another thread.
  unfoldable pub IsOwn : {callable : J → Bool} {u v : Worker J} → Step callable u v → Type 0
  IsOwn (Step.other_push item w) = ⊥
  IsOwn (Step.other_try_push item w) = ⊥
  IsOwn (Step.other_stop w) = ⊥
  IsOwn _ = Unit

  pub data OwnRun (callable : J → Bool) : Worker J → Worker J → Type 0 where
    stop : (w : Worker J) → OwnRun callable w w
    next :
        (u v w : Worker J) (step : Step callable u v)
        → IsOwn step
        → OwnRun callable v w
        → OwnRun callable u w

  -- The items that are still to be sent: the one that the thread has, and those of the queue.
  unfoldable pub waiting : Phase J → List (ScheduledItem J) → List (ScheduledItem J)
  waiting (holding item) items = item ∷ items
  waiting (due item) items = item ∷ items
  waiting _ items = items

  -- The thread goes on by itself, while time passes, to the call of a callback, for one of the items
  -- that wait; all the others still wait then.
  unfoldable pub Sends : (J → Bool) → Worker J → Type 0
  unfolding waiting
  Sends callable w =
      (v : Worker J) × (item : ScheduledItem J) × OwnRun callable w v
      × (v.sent ≡ (item, v.clock) ∷ w.sent)
      × Perm (item ∷ waiting v.phase v.queue.items) (waiting w.phase w.queue.items)

  pub conclude_sends :
      (callable : J → Bool) (item : ScheduledItem J) (w : Worker J)
      → callable item.job ≡ true
      → w.should_stop ≡ false
      → conclude callable item w ≡ record w { phase = idle; sent = (item, w.clock) ∷ w.sent }
  unfolding conclude
  conclude_sends callable item w c s =
      ap {B = Worker J}
        (λ b. elim b [
          | true ↦ record w { phase = ended }
          | false ↦ elim (callable item.job) [
            | true ↦ record w { phase = idle; sent = (item, w.clock) ∷ w.sent }
            | false ↦ record w { phase = idle }
          ]
        ])
        s
      ∙ ap {B = Worker J}
          (λ b. elim b [
            | true ↦ record w { phase = idle; sent = (item, w.clock) ∷ w.sent }
            | false ↦ record w { phase = idle }
          ])
          c

  -- The items can be sent.
  unfoldable pub AllCallable : (J → Bool) → Type 0
  AllCallable callable = (j : J) → callable j ≡ true

  -- The thread has an item, or the queue has one.
  unfoldable pub HasWork : Phase J → ℕ → Type 0
  HasWork idle n = 0 < n
  HasWork looking n = 0 < n
  HasWork (holding item) n = Unit
  HasWork (reclaiming item) n = Unit
  HasWork (due item) n = Unit
  HasWork ended n = ⊥
