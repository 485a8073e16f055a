-- ===== src/Ring/Interleave/Preserve.antt =====
-- Every move of either thread keeps the invariant.
use cancept.Prelude.{
  ℕ, zero, suc, ◌+◌, ◌%◌, ◌^◌, ◌≤◌, ◌<◌, ◌≡◌, ◌≢◌, refl, sym, ap, ap₂, ◌∙◌, subst, List, [], ◌∷◌,
  ◌++◌, length, get_or, arith, Bool-cases, ◌==◌, false, inl, inr, length-replicate, length-set,
  append_assoc, get_or-set_self,
}
use cancept.Prelude.Pow.{two-pow-pos}
use cancept.Ring.{advance}
use cancept.Ring.Window.{advance_lem, around_ne, around-suc, window, window-suc, window-set_outside}
use cancept.Ring.Interleave.Inv.{
  next_meets_tail, head_meets_tail, around_one, ProducerInv, ConsumerInv, ConsumerInv-write,
  ConsumerInv-publish, ProducerInv-release, IsValid,
}
use cancept.Ring.Interleave.{
  Producer, Consumer, Threads, Event, produce, consume, producer_step, consumer_step, step, run,
  initial,
}

-- For the sizes that the `static_assert` admits, up to half the range of `std::size_t`.
module _ {ℓ} {A : Type ℓ} (blank : A) (k : ℕ) (small : k ≤ 63) where
  abbrev n : ℕ
  n = 2 ^ k

  -- The test of `push` has failed, so a slot is free.
  room_of_free :
      {s : Threads A} (next : ℕ) (v : IsValid blank n s)
      → next ≡ (s.shared.head + 1) % n
      → (next == s.shared.tail) ≡ false
      → v.taken + 1 < n
  room_of_free {s} next v at free =
      let apart = next_meets_tail n s.shared.tail v.taken v.tail_in v.some_free in
      let moved = ap (λ (x : ℕ). (x + 1) % n) v.head_is in ground arith

  head_in : {s : Threads A} (v : IsValid blank n s) → s.shared.head < length s.shared.ring
  head_in v = rw (v.size, v.head_is) (omega (arith, v.tail_in))

  pub head_apart :
      {s : Threads A} (v : IsValid blank n s) → 0 < v.taken → s.shared.head ≢ s.shared.tail
  head_apart {s} v some_taken meets = omega (
    arith,
    (head_meets_tail n s.shared.tail v.taken v.tail_in v.some_free).0 (sym meets ∙ v.head_is),
  )

  taken_of_apart :
      {s : Threads A} (t : ℕ) (v : IsValid blank n s)
      → t ≡ s.shared.tail
      → (t == s.shared.head) ≡ false
      → 0 < v.taken
  taken_of_apart {s} t v at left =
      let meets = head_meets_tail n s.shared.tail v.taken v.tail_in v.some_free in
      let here = v.head_is in ground arith

  -- The consumer gives its slot back: the oldest value leaves the window.
  release-IsValid :
      (t : ℕ) (w : A) (s : Threads A) (m : ℕ) (v : IsValid blank n s)
      → v.taken ≡ m
      → ConsumerInv blank n s.shared m (Consumer.releasing t w)
      → IsValid blank n (consumer_step blank n (Consumer.releasing t w) s)
  unfolding consumer_step
  release-IsValid t w s zero v e at = absurd (omega (arith, at.1))
  release-IsValid t w s (suc m) v e at =
      let next : advance n t ≡ (s.shared.tail + 1) % n =
        rw at.0 (advance_lem k s.shared.tail small v.tail_in) in
      record {
        taken = m;
        some_free = omega (arith, v.some_free, e);
        size = v.size;
        tail_in = rw next (omega (arith, v.tail_in));
        head_is =
            v.head_is
            ∙ ap (λ (x : ℕ). (s.shared.tail + x) % n) e
            ∙ sym (ap (λ (x : ℕ). (x + m) % n) next ∙ around-suc n s.shared.tail m);
        fifo =
            v.fifo
            ∙ (ap (λ (x : ℕ). s.popped ++ window blank n s.shared.ring s.shared.tail x) e
                ∙ ap₂ (λ x (y : ℕ). s.popped ++ (x ∷ window blank n s.shared.ring y m)) at.2
                    (sym next)
                ∙ sym (append_assoc s.popped (w ∷ []) _));
        producer_at =
            ProducerInv-release blank n s.producer s.shared m (advance n t)
              (subst (λ x. ProducerInv blank n s.shared x s.producer) e v.producer_at);
        consumer_at = tt;
      }

  producer_step-IsValid :
      (p : Producer A) (val : A) (s : Threads A)
      → s.producer ≡ p
      → IsValid blank n s
      → IsValid blank n (producer_step blank n p val s)
  unfolding producer_step
  producer_step-IsValid Producer.idle val s e v = record {
    taken = v.taken;
    some_free = v.some_free;
    size = v.size;
    tail_in = v.tail_in;
    head_is = v.head_is;
    fifo = v.fifo;
    producer_at = (refl, advance_lem k s.shared.head small (rw v.head_is (omega arith)), tt);
    consumer_at = v.consumer_at;
  }
  producer_step-IsValid (Producer.loaded w head next) val s e v =
      let at = subst (ProducerInv blank n s.shared v.taken) e v.producer_at in
      elim (Bool-cases (next == s.shared.tail)) [
        | inl full ↦ rw full (record {
          taken = v.taken;
          some_free = v.some_free;
          size = v.size;
          tail_in = v.tail_in;
          head_is = v.head_is;
          fifo = v.fifo;
          producer_at = tt;
          consumer_at = v.consumer_at;
        })
        | inr free ↦ rw free (record {
          taken = v.taken;
          some_free = v.some_free;
          size = v.size;
          tail_in = v.tail_in;
          head_is = v.head_is;
          fifo = v.fifo;
          producer_at = (at.0, at.1, room_of_free next v at.1 free, tt);
          consumer_at = v.consumer_at;
        })
      ]
  producer_step-IsValid (Producer.writing w head next) val s e v =
      let at = subst (ProducerInv blank n s.shared v.taken) e v.producer_at in
      record {
        taken = v.taken;
        some_free = v.some_free;
        size = length-set s.shared.ring head w ∙ v.size;
        tail_in = v.tail_in;
        head_is = v.head_is;
        fifo =
            v.fifo
            ∙ ap (λ xs. s.popped ++ xs)
                (sym (
                  rw at.0 (
                    window-set_outside blank n s.shared.ring s.shared.tail v.taken s.shared.head w
                      (λ j hj.
                        rw v.head_is (around_ne n s.shared.tail j v.taken v.tail_in hj v.some_free))
                      v.tail_in)));
        producer_at =
            (at.1, at.2, rw at.0 (get_or-set_self s.shared.ring s.shared.head w blank (head_in v)));
        consumer_at =
            rw at.0 (
              ConsumerInv-write blank n s.consumer s.shared v.taken w (head_apart v) v.consumer_at);
      }
  producer_step-IsValid (Producer.publishing w next) val s e v =
      let at = subst (ProducerInv blank n s.shared v.taken) e v.producer_at in
      record {
        taken = suc v.taken;
        some_free = omega (arith, at.1);
        size = v.size;
        tail_in = v.tail_in;
        head_is = at.0 ∙ ap (λ (x : ℕ). (x + 1) % n) v.head_is ∙ around_one n s.shared.tail v.taken;
        fifo = rw v.fifo (
            append_assoc s.popped _ _
            ∙ ap (λ xs. s.popped ++ xs)
                (sym (
                  window-suc blank n s.shared.ring s.shared.tail v.taken v.tail_in
                  ∙ ap (λ x. window blank n s.shared.ring s.shared.tail v.taken ++ (x ∷ []))
                      (ap (λ (i : ℕ). get_or s.shared.ring i blank) (sym v.head_is) ∙ at.2))));
        producer_at = tt;
        consumer_at = ConsumerInv-publish blank n s.consumer s.shared v.taken next v.consumer_at;
      }

  consumer_step-IsValid :
      (c : Consumer A) (s : Threads A)
      → s.consumer ≡ c
      → IsValid blank n s
      → IsValid blank n (consumer_step blank n c s)
  unfolding consumer_step
  consumer_step-IsValid Consumer.idle s e v = record {
    taken = v.taken;
    some_free = v.some_free;
    size = v.size;
    tail_in = v.tail_in;
    head_is = v.head_is;
    fifo = v.fifo;
    producer_at = v.producer_at;
    consumer_at = (refl, tt);
  }
  consumer_step-IsValid (Consumer.loaded t) s e v =
      let at = subst (ConsumerInv blank n s.shared v.taken) e v.consumer_at in
      elim (Bool-cases (t == s.shared.head)) [
        | inl none_left ↦ rw none_left (record {
          taken = v.taken;
          some_free = v.some_free;
          size = v.size;
          tail_in = v.tail_in;
          head_is = v.head_is;
          fifo = v.fifo;
          producer_at = v.producer_at;
          consumer_at = tt;
        })
        | inr some_left ↦ rw some_left (record {
          taken = v.taken;
          some_free = v.some_free;
          size = v.size;
          tail_in = v.tail_in;
          head_is = v.head_is;
          fifo = v.fifo;
          producer_at = v.producer_at;
          consumer_at = (at.0, taken_of_apart t v at.0 some_left, tt);
        })
      ]
  consumer_step-IsValid (Consumer.reading t) s e v =
      let at = subst (ConsumerInv blank n s.shared v.taken) e v.consumer_at in
      record {
        taken = v.taken;
        some_free = v.some_free;
        size = v.size;
        tail_in = v.tail_in;
        head_is = v.head_is;
        fifo = v.fifo;
        producer_at = v.producer_at;
        consumer_at = (at.0, at.1, rw at.0 refl);
      }
  consumer_step-IsValid (Consumer.releasing t w) s e v =
      let at = subst (ConsumerInv blank n s.shared v.taken) e v.consumer_at in
      release-IsValid t w s v.taken v refl at

  pub step-IsValid :
      (e : Event A) {s : Threads A} → IsValid blank n s → IsValid blank n (step blank n e s)
  unfolding step
  step-IsValid (produce val) {s} v = producer_step-IsValid s.producer val s refl v
  step-IsValid consume {s} v = consumer_step-IsValid s.consumer s refl v

  pub run-IsValid :
      (es : List (Event A)) {s : Threads A} → IsValid blank n s → IsValid blank n (run blank n es s)
  unfolding run
  run-IsValid [] v = v
  run-IsValid (e ∷ es) v = run-IsValid es (step-IsValid e v)

  pub initial-IsValid : IsValid blank n (initial blank n)
  unfolding initial
  initial-IsValid = record {
    taken = 0;
    some_free = two-pow-pos k;
    size = length-replicate n blank;
    tail_in = two-pow-pos k;
    head_is = omega (arith, two-pow-pos k);
    fifo = refl;
    producer_at = tt;
    consumer_at = tt;
  }
