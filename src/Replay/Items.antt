-- ===== src/Replay/Items.antt =====
-- Any replay, with manipulation, pauses and a stop: when its items are, and what it reports.
use cancept.Prelude.{
  ℕ, zero, suc, ◌*◌, Bool, true, false, List, [], ◌∷◌, ◌++◌, Option, none, some, arith, All,
  if◌then◌else◌, by_test, take,
}
use cancept.Prelude.Int.{ℤ, pos, ◌+ℤ◌, ◌-ℤ◌, ◌≤ℤ◌, int_laws}
use cancept.Core.Float.{Float}
use cancept.Core.Dto.{RawCanMessage, DbcCanMessage}
use cancept.Queue.{ScheduledItem}
use cancept.Manipulation.Random.{Random}
use cancept.Manipulation.Handler.{FrameResult, PendingInsertion}
use cancept.Replay.{
  Entry, Wait, goes_on, stops_waiting, stops_pushing, sum, moved, read_next, scaled, Handler,
  items_at, build_insertion_items, Playing, schedule_and_push, counted, replay_from, replay, run,
}
use cancept.Replay.Times.{sum_nonneg, positive}

-- At a time or later.
unfoldable pub IsFrom : ℤ → ScheduledItem RawCanMessage → Type 0
IsFrom at x = at ≤ℤ x.scheduled_at

-- The pauses, if any, have lengths of zero or more.
unfoldable pub IsWait : Wait → Type 0
unfolding All
IsWait (goes_on pauses) = All (λ d. pos 0 ≤ℤ d) pauses
IsWait stops_waiting = Unit
IsWait (stops_pushing pauses k) = All (λ d. pos 0 ≤ℤ d) pauses

append-All : {A : Type 0} (P : A → Type 0) (xs ys : List A) → All P xs → All P ys → All P (xs ++ ys)
unfolding All
append-All P [] ys h k = k
append-All P (x ∷ xs) ys h k = (h.0, append-All P xs ys h.1 k)

take-All : {A : Type 0} (P : A → Type 0) (k : ℕ) (xs : List A) → All P xs → All P (take k xs)
unfolding All
take-All P zero xs h = tt
take-All P (suc k) [] h = tt
take-All P (suc k) (x ∷ xs) h = (h.0, take-All P k xs h.1)

module _ (F : Float) (R : Random F)
    (encode : DbcCanMessage (Float.Real F) → RawCanMessage → RawCanMessage) where
  open F use {Real, to_ℤ, of_ℤ, div}

  scaled_from_zero : (speed : Real) (a : ℤ) → pos 0 ≤ℤ scaled F R encode speed a
  unfolding scaled
  scaled_from_zero speed a = positive (to_ℤ (div (of_ℤ a) speed))

  insertions-IsFrom :
      (is : List (PendingInsertion Real)) (base at : ℤ)
      → at ≤ℤ base
      → All (IsFrom at) (build_insertion_items F R encode is base)
  unfolding build_insertion_items All IsFrom
  insertions-IsFrom [] base at h = tt
  insertions-IsFrom (i ∷ is) base at h = (omega (int_laws, h), insertions-IsFrom is base at h)

  own-IsFrom :
      (drop : Bool) (x : ScheduledItem RawCanMessage) (at : ℤ)
      → at ≤ℤ x.scheduled_at
      → All (IsFrom at) (if drop then [] else x ∷ [])
  unfolding All IsFrom
  own-IsFrom true x at h = tt
  own-IsFrom false x at h = (h, tt)

  items_at-IsFrom :
      (t at : ℤ) (m : RawCanMessage) (result : FrameResult Real)
      → at ≤ℤ t
      → All (IsFrom at) (items_at F R encode t m result)
  unfolding items_at
  items_at-IsFrom t at m result h =
      let final = t +ℤ pos (result.delay_offset * 1000) in
      append-All (IsFrom at) (build_insertion_items F R encode result.insertions final) _
        (insertions-IsFrom result.insertions final at (omega (int_laws, h)))
        (own-IsFrom result.drop (record { scheduled_at = final; job = m }) at (omega (int_laws, h)))

  schedule-IsFrom :
      (speed : Real) (first at : ℤ) (m : RawCanMessage) (w : Wait) (p : Playing F R encode)
      → IsWait w
      → at ≤ℤ p.replay_start
      → All (IsFrom at) (schedule_and_push F R encode speed first m w p).0
        × (at ≤ℤ (schedule_and_push F R encode speed first m w p).1.replay_start)
  unfolding schedule_and_push IsWait
  schedule-IsFrom speed first at m (goes_on pauses) p ok h =
      let start = p.replay_start +ℤ sum pauses in
      let longer = sum_nonneg pauses ok in
      (
        items_at-IsFrom (start +ℤ scaled F R encode speed (m.receive_time -ℤ first)) at _ _
            (omega (int_laws, longer, h, scaled_from_zero speed (m.receive_time -ℤ first))),
        omega (int_laws, longer, h),
      )
  schedule-IsFrom speed first at m stops_waiting p ok h = (tt, h)
  schedule-IsFrom speed first at m (stops_pushing pauses k) p ok h =
      let start = p.replay_start +ℤ sum pauses in
      let longer = sum_nonneg pauses ok in
      (
        take-All (IsFrom at) k _ (
            items_at-IsFrom (start +ℤ scaled F R encode speed (m.receive_time -ℤ first)) at _ _
              (omega (int_laws, longer, h, scaled_from_zero speed (m.receive_time -ℤ first)))),
        omega (int_laws, longer, h),
      )

  replay_from-IsFrom :
      (speed : Real) (first at : ℤ) (waits : ℕ → Wait) (prev : ℤ) (es : List (Option (Entry Real)))
      (p : Playing F R encode)
      → ((i : ℕ) → IsWait (waits i))
      → at ≤ℤ p.replay_start
      → All (IsFrom at) (replay_from F R encode speed first waits prev es p).0
  unfolding replay_from All counted
  replay_from-IsFrom speed first at waits prev [] p ok h = tt
  replay_from-IsFrom speed first at waits prev (none ∷ es) p ok h = tt
  replay_from-IsFrom speed first at waits prev (some e ∷ es) p ok h =
      let m = moved prev (read_next F R encode e p.handler).0 in
      let given : Playing F R encode = record p {
        handler = (read_next F R encode e p.handler).1;
      } in
      let here = schedule-IsFrom speed first at m (waits p.count) given (ok p.count) h in
      let there = schedule_and_push F R encode speed first m (waits p.count) given in
      by_test p.has_stopped _ _
        (λ (r : List (ScheduledItem RawCanMessage) × Playing F R encode). All (IsFrom at) r.0)
        (λ k. tt)
        (λ k. append-All (IsFrom at) there.0 _ here.0 (
          replay_from-IsFrom speed first at waits m.receive_time es (counted F R encode there.1) ok
            here.1))

  -- Whatever the recording, the manipulation, the pauses and a stop are, no item of a replay, also
  -- none that a manipulation inserts or delays, is scheduled before the replay starts. Pauses have
  -- lengths of zero or more.
  pub run-IsFrom :
      (speed : Real) (waits : ℕ → Wait) (now : ℤ) (reader : Option (List (Option (Entry Real))))
      (handler : Handler F R encode)
      → ((i : ℕ) → IsWait (waits i))
      → All (IsFrom now) (run F R encode speed waits now reader handler).0
  unfolding run replay All counted
  run-IsFrom speed waits now none handler ok = tt
  run-IsFrom speed waits now (some []) handler ok = tt
  run-IsFrom speed waits now (some (none ∷ es)) handler ok = tt
  run-IsFrom speed waits now (some (some e ∷ es)) handler ok =
      let m = (read_next F R encode e handler).0 in
      let given : Playing F R encode = record {
        replay_start = now;
        handler = (read_next F R encode e handler).1;
        has_stopped = false;
        count = 0;
      } in
      let here = schedule-IsFrom speed m.receive_time now m (waits 0) given (ok 0) (omega arith) in
      let there = schedule_and_push F R encode speed m.receive_time m (waits 0) given in
      append-All (IsFrom now) there.0 _ here.0 (
        replay_from-IsFrom speed m.receive_time now waits m.receive_time es
          (counted F R encode there.1) ok here.1)
