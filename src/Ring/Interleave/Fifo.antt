-- ===== src/Ring/Interleave/Fifo.antt =====
-- What a user of the ring may rely on, whatever the schedule of the two threads.
use cancept.Prelude.{
  ℕ, ◌+◌, ◌%◌, ◌^◌, ◌≤◌, ◌<◌, ◌≡◌, ◌≢◌, refl, sym, ap, ◌∙◌, List, ◌++◌, length, arith, ◌↔◌, ◌==◌,
  Bool-cases, inl, inr, length-append, subst,
}
use cancept.Ring.Window.{window, length-window}
use cancept.Ring.Interleave.Inv.{IsValid, ProducerInv, ConsumerInv, next_meets_tail}
use cancept.Ring.Interleave.Preserve.{head_apart, run-IsValid, initial-IsValid}
use cancept.Ring.Interleave.{Producer, Consumer, Threads, Event, step, run, initial, produce}

-- The test of `push`, and how many values are in the ring, in any valid state.
module _ {ℓ} {A : Type ℓ} (blank : A) (n : ℕ) (s : Threads A) where
  gives_up_iff :
      (val : A) (head next : ℕ) (other : A)
      → s.producer ≡ Producer.loaded val head next
      → ((step blank n (produce other) s).producer ≡ Producer.idle) ↔ (next ≡ s.shared.tail)
  unfolding step
  gives_up_iff val head next other p = rw p (elim (Bool-cases (next == s.shared.tail)) [
    | inl full ↦ rw full ((λ _. ground arith), (λ _. refl))
    | inr free ↦ rw free ((λ e. cc), (λ e. ground arith))
  ])

  length-pushed : (v : IsValid blank n s) → length s.pushed ≡ length s.popped + v.taken
  length-pushed v =
      ap length v.fifo
      ∙ length-append s.popped _
      ∙ ap (λ (m : ℕ). length s.popped + m)
          (length-window blank n s.shared.ring s.shared.tail v.taken)

  full_iff :
      (val : A) (head next : ℕ) (other : A) (v : IsValid blank n s)
      → s.producer ≡ Producer.loaded val head next
      → ((step blank n (produce other) s).producer ≡ Producer.idle)
        ↔ (length s.pushed + 1 ≡ length s.popped + n)
  full_iff val head next other v p =
      let at = subst (ProducerInv blank n s.shared v.taken) p v.producer_at in
      let turn = next_meets_tail n s.shared.tail v.taken v.tail_in v.some_free in
      let wrap : next ≡ ((s.shared.tail + v.taken) % n + 1) % n =
        at.1 ∙ ap (λ (x : ℕ). (x + 1) % n) v.head_is in
      let gives_up = gives_up_iff val head next other p in
      (
        (λ idle. omega (arith, length-pushed v, turn.0 (sym wrap ∙ gives_up.0 idle))),
        (λ e. gives_up.1 (wrap ∙ turn.1 (omega (arith, length-pushed v, e)))),
      )

module _ {ℓ} {A : Type ℓ} (blank : A) (k : ℕ) (small : k ≤ 63) (es : List (Event A)) where
  abbrev after : Threads A
  after = run blank (2 ^ k) es (initial blank (2 ^ k))

  after-IsValid : IsValid blank (2 ^ k) after
  after-IsValid = run-IsValid blank k small es (initial-IsValid blank k small)

  -- For every ring of size 2^k with k at most 63 and every schedule of the producer's and the
  -- consumer's accesses: the values popped so far are the oldest of the values pushed so far, in
  -- their order, and fewer than 2^k pushed values have not been popped.
  pub run_fifo :
      (waiting : List A) × (after.pushed ≡ after.popped ++ waiting) × (length waiting < 2 ^ k)
  run_fifo =
      let v = after-IsValid in
      (
        window blank (2 ^ k) after.shared.ring after.shared.tail v.taken,
        v.fifo,
        rw length-window v.some_free,
      )

  -- In every state that a schedule reaches: while the producer is about to write a slot and the
  -- consumer is about to read one, the two slots differ.
  pub run_race_free :
      {val : A} {head next tail : ℕ}
      → after.producer ≡ Producer.writing val head next
      → after.consumer ≡ Consumer.reading tail
      → head ≢ tail
  run_race_free {val} {head} {next} {tail} p c =
      let v = after-IsValid in
      let at = subst (ProducerInv blank (2 ^ k) after.shared v.taken) p v.producer_at in
      let bt = subst (ConsumerInv blank (2 ^ k) after.shared v.taken) c v.consumer_at in
      λ same. head_apart blank k small v bt.1 (sym at.0 ∙ same ∙ bt.0)

  -- In every state that a schedule reaches: where the producer stands at the test of `push`, the
  -- call gives up exactly if 2^k - 1 pushed values have not been popped.
  pub run_full_iff :
      (val : A) (head next : ℕ) (other : A)
      → after.producer ≡ Producer.loaded val head next
      → ((step blank (2 ^ k) (produce other) after).producer ≡ Producer.idle)
        ↔ (length after.pushed + 1 ≡ length after.popped + 2 ^ k)
  run_full_iff val head next other p =
      full_iff blank (2 ^ k) after val head next other after-IsValid p
