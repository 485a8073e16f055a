-- ===== src/Repeated.antt =====
-- `sending/worker/repeated_producer_worker.cpp`: a thread that has items made at a fixed interval. A
-- time is a count of nanoseconds. The callback reads the state of other parts, `M`, which is given
-- with each round; it returns `none` where it throws. How the thread sleeps is left out.
use cancept.Prelude.{
  ℕ, Bool, true, false, not, ◌||◌, List, [], ◌∷◌, ◌++◌, map, Option, none, some, if◌then◌else◌,
}
use cancept.Prelude.Int.{ℤ, pos, ◌+ℤ◌, ◌*ℤ◌, ltb_ℤ}
use cancept.Queue.{ScheduledItem}
pub mod Ticks
mod Tests

abbrev pub CreateCallback : Type 0 → Type 0 → Type 0
CreateCallback M J = M → ℤ → Option (List (ScheduledItem J))

pub record RepeatedWorker (M J : Type 0) : Type 0 where
  pub callback : Option (M → ℤ → Option (List (ScheduledItem J)))
  pub interval_us : ℤ
  pub is_active : Bool
  pub should_stop : Bool
  pub reset_guard : Bool

-- What happens in a round: the intervals that are set before the interval is read, the state that
-- the callback finds, the intervals that are set until `m_resetGuard` is read, and the clock there.
pub record Round (M : Type 0) : Type 0 where
  pub before : List ℤ
  pub found : M
  pub during : List ℤ
  pub now : ℤ

-- What the loop does that others see.
pub data Event (J : Type 0) : Type 0 where
  called : ℤ → Event J
  pushed : ScheduledItem J → Event J
  error_occurred : Event J

module _ {M J : Type 0} where
  -- Without the call of `start`; `run` is the thread that it starts.
  unfoldable pub start_creating :
      Option (CreateCallback M J) → ℤ → RepeatedWorker M J → RepeatedWorker M J
  start_creating none interval_us w = w
  start_creating (some callback) interval_us w =
      elim (w.is_active || not (ltb_ℤ (pos 0) interval_us)) [
        | true ↦ w
        | false ↦ record w {
          callback = some callback;
          interval_us = interval_us;
          should_stop = false;
          is_active = true;
        }
      ]

  -- The thread has ended when this returns.
  unfoldable pub stop_creating : RepeatedWorker M J → RepeatedWorker M J
  stop_creating w =
      if w.is_active then record w { should_stop = true; is_active = false; callback = none } else w

  unfoldable pub update_interval : ℤ → RepeatedWorker M J → RepeatedWorker M J
  update_interval interval_us w = elim (ltb_ℤ (pos 0) interval_us) [
    | true ↦ record w { interval_us = interval_us; reset_guard = true }
    | false ↦ w
  ]

  unfoldable pub update_all : List ℤ → RepeatedWorker M J → RepeatedWorker M J
  unfolding update_interval
  update_all [] w = w
  update_all (i ∷ is) w = update_all is (update_interval i w)

  unfoldable pub interval_ns : RepeatedWorker M J → ℤ
  unfolding ◌*ℤ◌
  interval_ns w = w.interval_us *ℤ pos 1000

  -- The `try` block.
  unfoldable pub create : CreateCallback M J → M → ℤ → List (Event J)
  create callback found next_deadline =
      called next_deadline ∷ (elim (callback found next_deadline) [
        | none ↦ error_occurred ∷ []
        | some items ↦ map pushed items
      ])

  -- The deadline that the thread waits for, and the members then.
  unfoldable pub reset : ℤ → ℤ → ℤ → RepeatedWorker M J → ℤ × RepeatedWorker M J
  reset now interval next_deadline w =
      (if w.reset_guard then now +ℤ interval else next_deadline, record w { reset_guard = false })

  unfoldable pub after_round : ℤ → Round M → RepeatedWorker M J → ℤ × RepeatedWorker M J
  unfolding update_all interval_ns reset
  after_round deadline r w =
      let read = update_all r.before w in
      reset r.now (interval_ns read) (deadline +ℤ interval_ns read) (update_all r.during read)

  -- The loop, from a deadline on; it ends with the rounds, when `m_shouldStop` is set.
  unfoldable pub repeat :
      CreateCallback M J → ℤ → List (Round M) → RepeatedWorker M J → List (Event J)
  unfolding create update_all interval_ns after_round
  repeat callback deadline [] w = []
  repeat callback deadline (r ∷ rs) w =
      let next = after_round deadline r w in
      create callback r.found (deadline +ℤ interval_ns (update_all r.before w))
      ++ repeat callback next.0 rs next.1

  -- The thread, which takes the callback first.
  unfoldable pub produce : ℤ → List (Round M) → RepeatedWorker M J → List (Event J)
  unfolding repeat
  produce now rs w = elim w.callback [ none ↦ [] | some callback ↦ repeat callback now rs w ]
