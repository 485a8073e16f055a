-- ===== src/Ring/Interleave/Inv.antt =====
-- What holds at every moment of every interleaving of `push` and `pop`.
use cancept.Prelude.{
  ℕ, suc, ◌+◌, ◌-◌, ◌%◌, ◌≤◌, ◌<◌, ◌≡◌, ◌≢◌, ap, ◌∙◌, ◌++◌, length, get_or, set, arith, ◌↔◌, ◌⊎◌,
  inl, inr, get_or-set_ne,
}
use native.Mathlib.Nat.{mod-eq_of_lt, mod-eq-sub-mod, mod-add-mod}
use native.Mathlib.Decide.{dec_lt}
use cancept.Ring.{SpscRing}
use cancept.Ring.Window.{window}
use cancept.Ring.Interleave.{Producer, Consumer, Threads}

mod_cases : (n x : ℕ) → x < n + n → ((x < n) × (x % n ≡ x)) ⊎ ((n ≤ x) × (x % n ≡ x - n))
mod_cases n x h = elim (dec_lt x n) [
  | yes p ↦ inl (p, mod-eq_of_lt p)
  | no p ↦
      inr (omega arith, mod-eq-sub-mod {n = x} {m = n} (omega arith) ∙ mod-eq_of_lt (omega arith))
]

-- The masked increment of the head meets the tail exactly when all slots but one are taken, and
-- the head is at the tail exactly when none is.
pub next_meets_tail : (n t m : ℕ) → t < n → m < n → (((t + m) % n + 1) % n ≡ t) ↔ (m + 1 ≡ n)
next_meets_tail n t m ht hm =
    omega (arith, mod_cases n (t + m) (omega arith), mod_cases n ((t + m) % n + 1) (omega arith))

pub head_meets_tail : (n t m : ℕ) → t < n → m < n → (t ≡ (t + m) % n) ↔ (m ≡ 0)
head_meets_tail n t m ht hm = omega (arith, mod_cases n (t + m) (omega arith))

module _ {ℓ} {A : Type ℓ} (blank : A) (n : ℕ) where
  abbrev pub ProducerInv : SpscRing A → ℕ → Producer A → Type ℓ
  ProducerInv r m Producer.idle = Unit
  ProducerInv r m (Producer.loaded v head next) =
      (head ≡ r.head) × (next ≡ (r.head + 1) % n) × Unit {ℓ}
  ProducerInv r m (Producer.writing v head next) =
      (head ≡ r.head) × (next ≡ (r.head + 1) % n) × (m + 1 < n) × Unit {ℓ}
  ProducerInv r m (Producer.publishing v next) =
      (next ≡ (r.head + 1) % n) × (m + 1 < n) × (get_or r.ring r.head blank ≡ v)

  abbrev pub ConsumerInv : SpscRing A → ℕ → Consumer A → Type ℓ
  ConsumerInv r m Consumer.idle = Unit
  ConsumerInv r m (Consumer.loaded tail) = (tail ≡ r.tail) × Unit {ℓ}
  ConsumerInv r m (Consumer.reading tail) = (tail ≡ r.tail) × (0 < m) × Unit {ℓ}
  ConsumerInv r m (Consumer.releasing tail v) =
      (tail ≡ r.tail) × (0 < m) × (get_or r.ring r.tail blank ≡ v)

  -- `taken` slots are in use; they hold what was pushed and not popped.
  pub record IsValid (s : Threads A) : Type ℓ where
    pub taken : ℕ
    pub some_free : taken < n
    pub size : length s.shared.ring ≡ n
    pub tail_in : s.shared.tail < n
    pub head_is : s.shared.head ≡ (s.shared.tail + taken) % n
    pub fifo : s.pushed ≡ s.popped ++ window blank n s.shared.ring s.shared.tail taken
    pub producer_at : ProducerInv s.shared taken s.producer
    pub consumer_at : ConsumerInv s.shared taken s.consumer

pub around_one : (n t m : ℕ) → ((t + m) % n + 1) % n ≡ (t + suc m) % n
around_one n t m = mod-add-mod (t + m) n 1 ∙ ap (λ (x : ℕ). x % n) (omega arith)

module _ {ℓ} {A : Type ℓ} (blank : A) (n : ℕ) where
  -- What the consumer knows stays true under the producer's write and under its publication.
  pub ConsumerInv-write :
      (c : Consumer A) (r : SpscRing A) (m : ℕ) (w : A)
      → (0 < m → r.head ≢ r.tail)
      → ConsumerInv blank n r m c
      → ConsumerInv blank n (record r { ring = set r.ring r.head w }) m c
  ConsumerInv-write Consumer.idle r m w apart h = h
  ConsumerInv-write (Consumer.loaded t) r m w apart h = h
  ConsumerInv-write (Consumer.reading t) r m w apart h = h
  ConsumerInv-write (Consumer.releasing t v) r m w apart h =
      (h.0, h.1, get_or-set_ne r.ring r.head r.tail w blank (apart h.1) ∙ h.2)

  pub ConsumerInv-publish :
      (c : Consumer A) (r : SpscRing A) (m next : ℕ)
      → ConsumerInv blank n r m c
      → ConsumerInv blank n (record r { head = next }) (suc m) c
  ConsumerInv-publish Consumer.idle r m next h = h
  ConsumerInv-publish (Consumer.loaded t) r m next h = h
  ConsumerInv-publish (Consumer.reading t) r m next h = (h.0, omega arith, tt)
  ConsumerInv-publish (Consumer.releasing t v) r m next h = (h.0, omega arith, h.2)

  -- What the producer knows stays true when the consumer gives a slot back.
  pub ProducerInv-release :
      (p : Producer A) (r : SpscRing A) (m t : ℕ)
      → ProducerInv blank n r (suc m) p
      → ProducerInv blank n (record r { tail = t }) m p
  ProducerInv-release Producer.idle r m t h = h
  ProducerInv-release (Producer.loaded v head next) r m t h = h
  ProducerInv-release (Producer.writing v head next) r m t h = (h.0, h.1, omega arith, tt)
  ProducerInv-release (Producer.publishing v next) r m t h = (h.0, omega arith, h.2)
