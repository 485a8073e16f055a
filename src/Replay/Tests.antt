-- ===== src/Replay/Tests.antt =====
-- Replays of short recordings.
use cancept.Prelude.{ℕ, zero, suc, ◌≡◌, refl, true, List, [], ◌∷◌, none, some, arith, map, All}
use cancept.Prelude.Int.{ℤ, pos, ◌+ℤ◌}
use cancept.Core.Sample.{whole}
use cancept.Core.Dto.{RawCanMessage, DbcCanMessage}
use cancept.Queue.{ScheduledItem}
use cancept.Manipulation.Random.{Random}
use cancept.Replay.{raw, Wait, goes_on, stops_pushing, same_time, moved, replay, run}
use cancept.Replay.Spread.{spread, recorded, IsSpaced, IsInOrder, AreSentFor}
use cancept.Replay.Times.{IsMonotone, HasPauses, replay-IsInOrder}
use cancept.Replay.Items.{IsFrom, IsWait, run-IsFrom}

abbrev no_random : Random whole
no_random = record {
  Engine = ℕ;
  Chance = ℕ;
  le = λ a b. true;
  canonical = λ e. (0, e);
  upto_seven = λ e. (0, e);
  between = λ a b e. (a, e);
  upto_seven_lt = λ e. omega arith;
}

abbrev frame : ℕ → RawCanMessage
frame t = record { receive_time = pos t; payload = []; message_id = 1; dlc = 0 }

abbrev encode : DbcCanMessage ℤ → RawCanMessage → RawCanMessage
encode m out = out

-- Of three frames with one time, the third is put before the second.
three_at_once :
    map (λ m. m.receive_time) (spread (pos 7) (frame 7 ∷ frame 7 ∷ [])) ≡ pos 8 ∷ pos 7 ∷ []
unfolding spread moved same_time ◌+ℤ◌
three_at_once = refl

-- The pause before each frame.
abbrev pauses : ℕ → List ℤ
pauses i = pos 10 ∷ []

abbrev recording : List RawCanMessage
recording = frame 5 ∷ frame 9 ∷ []

abbrev replayed : List (ScheduledItem RawCanMessage)
replayed =
    (replay whole no_random encode (pos 1) (λ i. goes_on (pauses i)) (pos 100) (raw (frame 5))
      (recorded recording) none).0

replay-IsInOrder_example :
    (js : List RawCanMessage) × (map (λ x. x.job) replayed ≡ frame 5 ∷ js)
    × AreSentFor (pos 5) recording js
    × IsInOrder (pos 100) replayed
unfolding IsMonotone HasPauses All IsSpaced ◌+ℤ◌
replay-IsInOrder_example =
    replay-IsInOrder whole no_random encode (pos 1) pauses (pos 100) (frame 5) recording kept
      (λ i. (omega arith, tt)) (omega arith, omega arith, omega arith)
  where
    kept : IsMonotone whole (pos 1)
    kept a b h = ground (arith, h)

-- The second frame is stopped before it is put.
abbrev waits : ℕ → Wait
waits zero = goes_on []
waits (suc _) = stops_pushing [] 0

run-IsFrom_example :
    All
      (IsFrom (pos 100))
      (run whole no_random encode
        (pos 1)
        waits
        (pos 100)
        (some (some (raw (frame 5)) ∷ some (raw (frame 6)) ∷ []))
        none).0
unfolding IsWait All
run-IsFrom_example =
    run-IsFrom whole no_random encode (pos 1) waits (pos 100)
      (some (some (raw (frame 5)) ∷ some (raw (frame 6)) ∷ [])) none waits-IsWait
  where
    waits-IsWait : (i : ℕ) → IsWait (waits i)
    waits-IsWait zero = tt
    waits-IsWait (suc i) = tt
