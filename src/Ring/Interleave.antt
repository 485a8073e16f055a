-- ===== src/Ring/Interleave.antt =====
-- `push` and `pop` of `core/util/spsc_ring.hpp` cut at their accesses of shared memory, run by
-- one producer and one consumer under any schedule. An acquire load that sees a release store sees
-- what was written before it, so the accesses are taken in one order.
pub mod Inv
pub mod Preserve
pub mod Fifo
use cancept.Prelude.{
  ℕ, ◌^◌, Bool, true, false, List, [], ◌∷◌, ◌++◌, ◌==◌, if◌then◌else◌, get_or, set, replicate,
}
use cancept.Ring.{SpscRing, advance}

-- Where the producer stands in `push(val)`: before the call, behind the load of the head, behind
-- the test, and behind the write of the slot.
pub data Producer {ℓ} (A : Type ℓ) : Type ℓ where
  idle : Producer A
  loaded : A → ℕ → ℕ → Producer A
  writing : A → ℕ → ℕ → Producer A
  publishing : A → ℕ → Producer A

-- Where the consumer stands in `pop(val)`: before the call, behind the load of the tail, behind
-- the test, and behind the read of the slot.
pub data Consumer {ℓ} (A : Type ℓ) : Type ℓ where
  idle : Consumer A
  loaded : ℕ → Consumer A
  reading : ℕ → Consumer A
  releasing : ℕ → A → Consumer A

-- The ring, the two threads, and the values that completed calls have taken in and handed out.
pub record Threads {ℓ} (A : Type ℓ) : Type ℓ where
  pub shared : SpscRing A
  pub producer : Producer A
  pub consumer : Consumer A
  pub pushed : List A
  pub popped : List A

-- The thread that moves next; `val` is the argument of a call that begins.
pub data Event {ℓ} (A : Type ℓ) : Type ℓ where
  produce : A → Event A
  consume : Event A

module _ {ℓ} {A : Type ℓ} (blank : A) (n : ℕ) where
  unfoldable pub producer_step : Producer A → A → Threads A → Threads A
  producer_step Producer.idle val s = record s {
    producer = Producer.loaded val s.shared.head (advance n s.shared.head);
  }
  producer_step (Producer.loaded v head next) val s =
      if next == s.shared.tail
      then record s { producer = Producer.idle }
      else record s { producer = Producer.writing v head next }
  producer_step (Producer.writing v head next) val s = record s {
    shared = record (s.shared) { ring = set s.shared.ring head v };
    producer = Producer.publishing v next;
  }
  producer_step (Producer.publishing v next) val s = record s {
    shared = record (s.shared) { head = next };
    producer = Producer.idle;
    pushed = s.pushed ++ (v ∷ []);
  }

  unfoldable pub consumer_step : Consumer A → Threads A → Threads A
  consumer_step Consumer.idle s = record s { consumer = Consumer.loaded s.shared.tail }
  consumer_step (Consumer.loaded tail) s =
      if tail == s.shared.head
      then record s { consumer = Consumer.idle }
      else record s { consumer = Consumer.reading tail }
  consumer_step (Consumer.reading tail) s = record s {
    consumer = Consumer.releasing tail (get_or s.shared.ring tail blank);
  }
  consumer_step (Consumer.releasing tail v) s = record s {
    shared = record (s.shared) { tail = advance n tail };
    consumer = Consumer.idle;
    popped = s.popped ++ (v ∷ []);
  }

  unfoldable pub step : Event A → Threads A → Threads A
  unfolding producer_step consumer_step
  step (produce val) s = producer_step s.producer val s
  step consume s = consumer_step s.consumer s

  unfoldable pub run : List (Event A) → Threads A → Threads A
  run [] s = s
  run (e ∷ es) s = run es (step e s)

  -- `m_ring{}`, `m_head{0}`, `m_tail{0}`, and no call made.
  unfoldable pub initial : Threads A
  initial = record {
    shared = record { ring = replicate n blank; head = 0; tail = 0 };
    producer = Producer.idle;
    consumer = Consumer.idle;
    pushed = [];
    popped = [];
  }
