-- ===== src/Replay/Times.antt =====
-- The times of a replay without manipulation: the frames are put in the order in which they were
-- recorded, at times that do not go back.
use cancept.Prelude.{
  ℕ, suc, ◌≡◌, refl, sym, ap, ◌∙◌, subst, false, List, [], ◌∷◌, map, none, arith, All,
  if◌then◌else◌,
}
use cancept.Prelude.Int.{ℤ, pos, ◌+ℤ◌, ◌-ℤ◌, ◌≤ℤ◌, ltb_ℤ, int_laws}
use cancept.Core.Float.{Float}
use cancept.Core.Dto.{RawCanMessage, DbcCanMessage}
use cancept.Queue.{ScheduledItem}
use cancept.Manipulation.Random.{Random}
use cancept.Replay.{
  raw, goes_on, sum, moved, read_next, scaled, judge, items_at, build_insertion_items,
  schedule_and_push, counted, replay_from, replay,
}
use cancept.Replay.Spread.{
  spread, recorded, IsSpaced, IsAscending, IsInOrder, NextFrom, head_spaced, spread-IsAscending,
  AreSentFor, spread-AreSentFor,
}

positive_part :
    (x y : ℤ)
    → x ≤ℤ y
    → (if ltb_ℤ (pos 0) x then x else pos 0) ≤ℤ (if ltb_ℤ (pos 0) y then y else pos 0)
positive_part x y h = ground (arith, h)

pub positive : (x : ℤ) → pos 0 ≤ℤ (if ltb_ℤ (pos 0) x then x else pos 0)
positive x = ground arith

pub sum_nonneg : (ds : List ℤ) → All (λ d. pos 0 ≤ℤ d) ds → pos 0 ≤ℤ sum ds
unfolding sum All
sum_nonneg [] h = omega arith
sum_nonneg (d ∷ ds) h = omega (int_laws, h.0, sum_nonneg ds h.1)

-- The conversion and the division keep the order of durations.
unfoldable pub IsMonotone : (F : Float) → F.Real → Type 0
IsMonotone F speed =
    (a b : ℤ) → a ≤ℤ b → F.to_ℤ (F.div (F.of_ℤ a) speed) ≤ℤ F.to_ℤ (F.div (F.of_ℤ b) speed)

-- No pause has a negative length.
unfoldable pub HasPauses : (ℕ → List ℤ) → Type 0
unfolding All
HasPauses pauses = (i : ℕ) → All (λ d. pos 0 ≤ℤ d) (pauses i)

module _ (F : Float) (R : Random F)
    (encode : DbcCanMessage (Float.Real F) → RawCanMessage → RawCanMessage) (speed : Float.Real F)
    (first : ℤ) (pauses : ℕ → List ℤ) where
  open F use {Real, of_ℤ, to_ℤ, div}

  -- A frame without manipulation is one item.
  unfoldable pub item_of : ℤ → RawCanMessage → ScheduledItem RawCanMessage
  item_of start m = record {
    scheduled_at = start +ℤ scaled F R encode speed (m.receive_time -ℤ first) +ℤ pos 0;
    job = m;
  }

  -- The items of frames from an index on, with the start of the replay.
  unfoldable pub plan : ℕ → ℤ → List RawCanMessage → List (ScheduledItem RawCanMessage)
  plan i start [] = []
  plan i start (m ∷ ms) =
      item_of (start +ℤ sum (pauses i)) m ∷ plan (suc i) (start +ℤ sum (pauses i)) ms

  replay_from-plan :
      (ms : List RawCanMessage) (prev start : ℤ) (i : ℕ)
      → (replay_from F R encode speed first
          (λ j. goes_on (pauses j))
          prev
          (recorded ms)
          (record { replay_start = start; handler = none; has_stopped = false; count = i })).0
        ≡ plan i start (spread prev ms)
  unfolding replay_from plan spread item_of schedule_and_push counted read_next judge items_at
      build_insertion_items
  replay_from-plan [] prev start i = refl
  replay_from-plan (m ∷ ms) prev start i =
      ap (λ rest. item_of (start +ℤ sum (pauses i)) (moved prev m) ∷ rest)
        (replay_from-plan ms (moved prev m).receive_time (start +ℤ sum (pauses i)) (suc i))

  map-plan : (i : ℕ) (start : ℤ) (ms : List RawCanMessage) → map (λ x. x.job) (plan i start ms) ≡ ms
  unfolding plan item_of
  map-plan i start [] = refl
  map-plan i start (m ∷ ms) = ap (λ rest. m ∷ rest) (map-plan (suc i) (start +ℤ sum (pauses i)) ms)

  scaled_mono :
      (a b : ℤ)
      → IsMonotone F speed
      → a ≤ℤ b
      → scaled F R encode speed a ≤ℤ scaled F R encode speed b
  unfolding scaled IsMonotone
  scaled_mono a b mono h =
      positive_part (to_ℤ (div (of_ℤ a) speed)) (to_ℤ (div (of_ℤ b) speed)) (mono a b h)

  plan-IsInOrder :
      (i : ℕ) (start prev at : ℤ) (ms : List RawCanMessage)
      → IsMonotone F speed
      → HasPauses pauses
      → at ≤ℤ start +ℤ scaled F R encode speed (prev -ℤ first)
      → IsAscending prev ms
      → IsInOrder at (plan i start ms)
  unfolding plan item_of IsInOrder IsAscending HasPauses
  plan-IsInOrder i start prev at [] mono waits h asc = tt
  plan-IsInOrder i start prev at (m ∷ ms) mono waits h asc =
      let longer = sum_nonneg (pauses i) (waits i) in
      let more =
        scaled_mono (prev -ℤ first) (m.receive_time -ℤ first) mono (omega (int_laws, asc.0)) in
      (
        omega (int_laws, longer, more, h),
        plan-IsInOrder (suc i) (start +ℤ sum (pauses i)) m.receive_time _ ms mono waits
            (omega int_laws) asc.1,
      )

  scaled_nonneg : (a : ℤ) → pos 0 ≤ℤ scaled F R encode speed a
  unfolding scaled
  scaled_nonneg a = positive (to_ℤ (div (of_ℤ a) speed))

next_from : (prev : ℤ) (ms : List RawCanMessage) → IsSpaced prev ms → NextFrom prev ms
unfolding NextFrom
next_from prev [] h = tt
next_from prev (m ∷ ms) h = head_spaced prev m ms h

spread-IsAscending_all :
    (m : RawCanMessage) (ms : List RawCanMessage)
    → IsSpaced m.receive_time ms
    → IsAscending (m.receive_time -ℤ pos 1) (m ∷ spread m.receive_time ms)
unfolding IsAscending
spread-IsAscending_all m ms spaced = (
  omega int_laws,
  spread-IsAscending m.receive_time m.receive_time ms (omega int_laws)
      (next_from m.receive_time ms spaced) spaced,
)

module _ (F : Float) (R : Random F)
    (encode : DbcCanMessage (Float.Real F) → RawCanMessage → RawCanMessage) (speed : Float.Real F)
    (pauses : ℕ → List ℤ) where
  open F use {Real}

  replay-plan :
      (now : ℤ) (m : RawCanMessage) (ms : List RawCanMessage)
      → (replay F R encode speed (λ j. goes_on (pauses j)) now (raw m) (recorded ms) none).0
        ≡ plan F R encode speed m.receive_time pauses 0 now (m ∷ spread m.receive_time ms)
  unfolding replay plan item_of schedule_and_push counted read_next judge items_at
      build_insertion_items
  replay-plan now m ms =
      ap (λ rest. item_of F R encode speed m.receive_time pauses (now +ℤ sum (pauses 0)) m ∷ rest)
        (replay_from-plan F R encode speed m.receive_time pauses ms m.receive_time
          (now +ℤ sum (pauses 0)) 1)

  -- A replay of raw frames without manipulation and without a stop puts one item for each frame, in
  -- the order in which they were recorded: the first as it was recorded, and each other one with the
  -- identifier, length and payload that were recorded, and with the time that was recorded, or a
  -- nanosecond more if the frame put before it has that time. No item is scheduled before the one in
  -- front of it, or before the replay starts. The times of the records do not go back, and every
  -- other one is two nanoseconds apart; the pauses have lengths of zero or more; conversion and
  -- division by the speed keep the order of durations.
  pub replay-IsInOrder :
      (now : ℤ) (m : RawCanMessage) (ms : List RawCanMessage)
      → IsMonotone F speed
      → HasPauses pauses
      → IsSpaced m.receive_time ms
      → let items =
          (replay F R encode speed (λ j. goes_on (pauses j)) now (raw m) (recorded ms) none).0 in
        (js : List RawCanMessage) × (map (λ x. x.job) items ≡ m ∷ js)
        × AreSentFor m.receive_time ms js
        × IsInOrder now items
  replay-IsInOrder now m ms mono waits spaced =
      let planned = replay-plan now m ms in
      let all = m ∷ spread m.receive_time ms in
      let prev = m.receive_time -ℤ pos 1 in
      (
        spread m.receive_time ms,
        ap (map (λ x. x.job)) planned ∙ map-plan F R encode speed m.receive_time pauses 0 now all,
        spread-AreSentFor m.receive_time ms,
        subst (IsInOrder now) (sym planned) (
            plan-IsInOrder F R encode speed m.receive_time pauses 0 now prev now all mono waits
              (omega (
                int_laws,
                scaled_nonneg F R encode speed m.receive_time pauses (prev -ℤ m.receive_time),
              ))
              (spread-IsAscending_all m ms spaced)),
      )
