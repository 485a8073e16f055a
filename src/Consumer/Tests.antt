-- ===== src/Consumer/Tests.antt =====
-- Runs of the thread: one that sends an item, and one that gives an item back for an earlier one.
use cancept.Prelude.{ℕ, refl, Bool, true, [], ◌∷◌, some, All}
use cancept.Prelude.Int.{pos, ◌+ℤ◌}
use mathlib.Core.List.{Perm}
use cancept.Queue.{
  ScheduledItem, ScheduledItemQueue, try_push, peek_front, push, release, locked_push, pop,
  locked_pop, take_top, new_queue,
}
use cancept.Consumer.{
  idle, looking, holding, reclaiming, due, Worker, taken, reclaimed, conclude, Step, Run,
  start_consuming,
}
use cancept.Consumer.Timely.{IsTimely, run-IsTimely}
use cancept.Consumer.Progress.{AllCallable, IsOwn, OwnRun}
use cancept.Consumer.Conserved.{all_items, run-all_items}

abbrev item : ScheduledItem ℕ
item = record { scheduled_at = pos 5; job = 7 }

abbrev callable : ℕ → Bool
callable j = true

-- The item comes at time 0 and is taken.
abbrev pushed : Worker ℕ
pushed = record (start_consuming new_queue (pos 0)) {
  queue = record { items = item ∷ []; semaphore = 1 };
}

abbrev held : Worker ℕ
held = record (start_consuming new_queue (pos 0)) { phase = holding item }

to_held : Run callable (start_consuming new_queue (pos 0)) held
unfolding start_consuming new_queue push release locked_push pop locked_pop take_top taken
to_held =
    Run.next (start_consuming new_queue (pos 0)) (record pushed { phase = looking }) held
      (Run.next (start_consuming new_queue (pos 0)) pushed (record pushed { phase = looking })
        (Run.next (start_consuming new_queue (pos 0)) (start_consuming new_queue (pos 0)) pushed
          (Run.stop _) (Step.other_push item (start_consuming new_queue (pos 0))))
        (Step.look pushed refl refl))
      (Step.take (record pushed { phase = looking }) (some item) new_queue refl refl)

abbrev late : Worker ℕ
late = record held { clock = pos 6 }

to_sent :
    Run callable
      (start_consuming new_queue (pos 0))
      (record late { phase = idle; sent = (item, pos 6) ∷ [] })
unfolding start_consuming conclude ◌+ℤ◌
to_sent =
    Run.next _ (record late { phase = due item }) _
      (Run.next _ late _ (Run.next _ held late to_held (Step.time_passes 6 held))
        (Step.arrive late item refl refl))
      (Step.call_back (record late { phase = due item }) item refl)

run-IsTimely_example : All IsTimely ((item, pos 6) ∷ [])
unfolding start_consuming
run-IsTimely_example =
    run-IsTimely callable new_queue (pos 0)
      (record late { phase = idle; sent = (item, pos 6) ∷ [] }) to_sent

-- An item that comes while the thread waits for a later one.
abbrev early : ScheduledItem ℕ
early = record { scheduled_at = pos 3; job = 8 }

abbrev overtaken : Worker ℕ
overtaken = record held { queue = record { items = early ∷ []; semaphore = 1 } }

to_overtaken : Run callable (start_consuming new_queue (pos 0)) overtaken
unfolding start_consuming new_queue push release locked_push
to_overtaken = Run.next _ held overtaken to_held (Step.other_push early held)

abbrev exchanged : Worker ℕ
exchanged = record overtaken {
  phase = holding early;
  queue = record { items = item ∷ []; semaphore = 1 };
}

to_exchanged : OwnRun callable overtaken exchanged
unfolding start_consuming try_push release pop locked_pop take_top peek_front reclaimed IsOwn
to_exchanged =
    let both : ScheduledItemQueue ℕ = record { items = item ∷ early ∷ []; semaphore = 2 } in
    let given : Worker ℕ = record overtaken { phase = reclaiming item; queue = both } in
    OwnRun.next overtaken given exchanged
      (Step.give_back overtaken item (pos 3) both refl refl refl refl refl refl) tt
      (OwnRun.next given exchanged exchanged
        (Step.take_back given item (some early) (record { items = item ∷ []; semaphore = 1 }) refl
          refl)
        tt (OwnRun.stop exchanged))

run-all_items_example : Perm (all_items exchanged) (all_items overtaken)
unfolding AllCallable start_consuming
run-all_items_example =
    run-all_items callable new_queue (pos 0) overtaken exchanged (λ j. refl) to_overtaken refl
      to_exchanged
