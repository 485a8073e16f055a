-- ===== src/Ring/Tests.antt =====
-- Runs of the ring of `core/util/spsc_ring.hpp`, and the theorems at concrete inputs.
use cancept.Prelude.{
  ℕ, ◌+◌, ◌<◌, ◌≡◌, ◌≢◌, refl, ◌↔◌, List, [], ◌∷◌, ◌++◌, length, true, false, arith,
}
use cancept.Ring.{SpscRing, push, pop, empty, advance}
use cancept.Ring.Refine.{
  Op, push_op, pop_op, empty_op, flag, value, run_ring, run_queue, run_refines,
}
use cancept.Ring.Interleave.{
  Event, produce, consume, Producer, Consumer, Threads, run, step, initial,
}
use cancept.Ring.Interleave.Fifo.{run_fifo, run_race_free, run_full_iff}

-- Four slots, two values that go round the end of the array.
abbrev wrapped : SpscRing ℕ
wrapped = record { ring = 9 ∷ 0 ∷ 0 ∷ 8 ∷ []; head = 1; tail = 3 }

abbrev script : List (Op ℕ)
script = push_op 1 ∷ push_op 2 ∷ pop_op 0 ∷ pop_op 0 ∷ pop_op 0 ∷ empty_op ∷ pop_op 7 ∷ []

run_ring-wrapped :
    run_ring 4 script wrapped
    ≡ flag true
      ∷ flag false
      ∷ value true 8
      ∷ value true 9
      ∷ value true 1
      ∷ flag true
      ∷ value false 7
      ∷ []
unfolding run_ring push pop empty advance
run_ring-wrapped = refl

run_refines_example : run_ring 4 script wrapped ≡ run_queue 4 script (8 ∷ 9 ∷ [])
run_refines_example = run_refines 0 2 script wrapped 2 (omega arith) (omega arith)

-- The producer completes a push of 5, then stands before the write of 6; the consumer is about to
-- read 5.
abbrev schedule : List (Event ℕ)
schedule =
    produce 5
    ∷ consume
    ∷ consume
    ∷ produce 0
    ∷ produce 0
    ∷ produce 0
    ∷ produce 6
    ∷ consume
    ∷ consume
    ∷ produce 0
    ∷ []

abbrev state : Threads ℕ
state = run 0 4 schedule (initial 0 4)

run_fifo_example :
    (waiting : List ℕ) × (state.pushed ≡ state.popped ++ waiting) × (length waiting < 4)
run_fifo_example = run_fifo 0 2 (omega arith) schedule

producer_at : state.producer ≡ Producer.writing 6 1 2
unfolding run step initial advance
producer_at = refl

consumer_at : state.consumer ≡ Consumer.reading 0
unfolding run step initial advance
consumer_at = refl

run_race_free_example : ◌≢◌ {A = ℕ} 1 0
run_race_free_example = run_race_free 0 2 (omega arith) schedule producer_at consumer_at

-- A ring of two slots that holds one value is full.
abbrev filling : List (Event ℕ)
filling = produce 5 ∷ produce 0 ∷ produce 0 ∷ produce 0 ∷ produce 6 ∷ []

abbrev full : Threads ℕ
full = run 0 2 filling (initial 0 2)

at_test : full.producer ≡ Producer.loaded 6 1 0
unfolding run step initial advance
at_test = refl

run_full_iff_example :
    ((step 0 2 (produce 7) full).producer ≡ Producer.idle)
    ↔ (length full.pushed + 1 ≡ length full.popped + 2)
run_full_iff_example = run_full_iff 0 1 (omega arith) filling 6 1 0 7 at_test
