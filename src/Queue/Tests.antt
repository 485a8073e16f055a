-- ===== src/Queue/Tests.antt =====
-- Runs of the queue, and instances of its theorems on one of them.
use cancept.Prelude.{ℕ, ◌≡◌, refl, List, [], ◌∷◌, none, some}
use cancept.Prelude.Int.{pos}
use cancept.Queue.{ScheduledItem, locked_push, locked_pop, push, pop, interrupt, new_queue}
use cancept.Queue.Steps.{
  Shared, Run, start, after_push, IsCounted, Served, run-IsCounted, run-Served, lock_push, end_push,
  acquire, stop, next,
}

abbrev late : ScheduledItem ℕ
late = record { scheduled_at = pos 9; job = 1 }

abbrev early : ScheduledItem ℕ
early = record { scheduled_at = pos 4; job = 2 }

-- The later item is pushed first.
earliest_first :
    pop (push early (push late new_queue))
    ≡ some (some early, record { items = late ∷ []; semaphore = 1 })
unfolding pop push new_queue
earliest_first = refl

interrupted : pop (interrupt {J = ℕ} new_queue) ≡ some (none, new_queue)
unfolding pop interrupt new_queue
interrupted = refl

-- Both are pushed and one is announced, which a pop has seen.
abbrev state : List (ScheduledItem ℕ) → ℕ → ℕ → ℕ → Shared ℕ
state items semaphore releasing taking = record {
  items = items;
  semaphore = semaphore;
  releasing = releasing;
  taking = taking;
  interrupts = 0;
}

abbrev one_taking : Shared ℕ
one_taking = state (early ∷ late ∷ []) 0 1 1

run_to_taking : Run start one_taking
unfolding start after_push locked_push
run_to_taking =
    next _ (state (early ∷ late ∷ []) 1 1 0) _
      (next _ (state (late ∷ []) 1 0 0) _
        (next _ (state (late ∷ []) 0 1 0) _ (next _ start _ (stop start) (lock_push late start))
          (end_push (state (late ∷ []) 0 1 0) 0 refl))
        (lock_push early (state (late ∷ []) 1 0 0)))
      (acquire (state (early ∷ late ∷ []) 1 1 0) 0 refl)

run-IsCounted_example : IsCounted one_taking
run-IsCounted_example = run-IsCounted one_taking run_to_taking

run-Served_example : Served one_taking (locked_pop (early ∷ late ∷ []))
run-Served_example = run-Served one_taking 0 run_to_taking refl
