-- ===== src/Ring/Refine.antt =====
-- Calls made one after another: the ring behaves as a queue of at most N - 1 values.
use cancept.Prelude.{
  ℕ, zero, suc, ◌+◌, ◌%◌, ◌^◌, ◌≤◌, ◌<◌, ◌≡◌, refl, sym, ap, ap₂, ◌∙◌, List, [], ◌∷◌, ◌++◌, length,
  set, arith, Bool, true, false, Bool-cases, ◌==◌, if◌then◌else◌, inl, inr, length-set,
  get_or_default,
}
use cancept.Ring.{SpscRing, advance, push, pop, empty}
use cancept.Ring.Window.{advance_lem, around-suc, window, window-set_end, length-window}
use cancept.Ring.Interleave.Inv.{next_meets_tail, head_meets_tail, around_one}

-- What a caller does, and what it sees: the result, and its variable after a `pop`.
pub data Op {ℓ} (A : Type ℓ) : Type ℓ where
  push_op : A → Op A
  pop_op : A → Op A
  empty_op : Op A

pub data Reply {ℓ} (A : Type ℓ) : Type ℓ where
  flag : Bool → Reply A
  value : Bool → A → Reply A

module _ {ℓ} {A : Type ℓ} (n : ℕ) where
  unfoldable pub run_ring : List (Op A) → SpscRing A → List (Reply A)
  run_ring [] r = []
  run_ring (push_op v ∷ ops) r = let (done, r') = push n r v in flag done ∷ run_ring ops r'
  run_ring (pop_op x ∷ ops) r = let (done, y, r') = pop n r x in value done y ∷ run_ring ops r'
  run_ring (empty_op ∷ ops) r = flag (empty r) ∷ run_ring ops r

  -- The specification: a list, oldest value first, that holds fewer than `n` values.
  unfoldable pub run_queue : List (Op A) → List A → List (Reply A)
  run_queue [] q = []
  run_queue (push_op v ∷ ops) q =
      let full = length q + 1 == n in
      flag (if full then false else true) ∷ run_queue ops (if full then q else q ++ (v ∷ []))
  run_queue (pop_op x ∷ ops) [] = value false x ∷ run_queue ops []
  run_queue (pop_op x ∷ ops) (y ∷ q) = value true y ∷ run_queue ops q
  run_queue (empty_op ∷ ops) [] = flag true ∷ run_queue ops []
  run_queue (empty_op ∷ ops) (y ∷ q) = flag false ∷ run_queue ops (y ∷ q)

-- `m` slots are in use, from the tail on.
pub record Holds {ℓ} {A : Type ℓ} (n m : ℕ) (r : SpscRing A) : Type ℓ where
  pub some_free : m < n
  pub size : length r.ring ≡ n
  pub tail_in : r.tail < n
  pub head_is : r.head ≡ (r.tail + m) % n

module _ {ℓ} {A : Type ℓ} (blank : A) (k : ℕ) (small : k ≤ 63) where
  abbrev n : ℕ
  n = 2 ^ k

  abbrev contents : SpscRing A → ℕ → List A
  contents r m = window blank n r.ring r.tail m

  next_is : {m : ℕ} {r : SpscRing A} → Holds n m r → advance n r.head ≡ (r.head + 1) % n
  next_is h = advance_lem k _ small (rw h.head_is (omega (arith, h.tail_in)))

  -- The two tests of the code are tests of the number of values.
  full_test :
      {m : ℕ} {r : SpscRing A}
      → Holds n m r
      → (advance n r.head == r.tail) ≡ (length (contents r m) + 1 == n)
  full_test {m} {r} h =
      let wrap = next_is h ∙ ap (λ (x : ℕ). (x + 1) % n) h.head_is in
      let turn = next_meets_tail n r.tail m h.tail_in h.some_free in
      rw (length-window blank n r.ring r.tail m) (ground arith)

  suc_test : (m : ℕ) → (suc m == 0) ≡ false
  suc_test m = ground arith

  empty_test : {m : ℕ} {r : SpscRing A} → Holds n m r → (r.tail == r.head) ≡ (m == 0)
  empty_test {m} {r} h =
      let meets = head_meets_tail n r.tail m h.tail_in h.some_free in rw h.head_is (ground arith)

  -- The ring after a `push` that finds room, and after a `pop` that finds a value.
  Holds-push :
      {m : ℕ} {r : SpscRing A} (v : A)
      → Holds n m r
      → (length (contents r m) + 1 == n) ≡ false
      → Holds n (suc m) (record r { ring = set r.ring r.head v; head = advance n r.head })
  Holds-push {m} {r} v h room =
      let used = length-window blank n r.ring r.tail m in
      record {
        some_free = ground (arith, h.some_free);
        size = length-set r.ring r.head v ∙ h.size;
        tail_in = h.tail_in;
        head_is = next_is h ∙ ap (λ (x : ℕ). (x + 1) % n) h.head_is ∙ around_one n r.tail m;
      }

  tail_next : {m : ℕ} {r : SpscRing A} → Holds n m r → advance n r.tail ≡ (r.tail + 1) % n
  tail_next h = advance_lem k _ small h.tail_in

  Holds-pop :
      {m : ℕ} {r : SpscRing A}
      → Holds n (suc m) r
      → Holds n m (record r { tail = advance n r.tail })
  Holds-pop {m} {r} h = record {
    some_free = omega (arith, h.some_free);
    size = h.size;
    tail_in = rw (tail_next h) (omega (arith, h.tail_in));
    head_is = h.head_is ∙ sym (ap (λ (x : ℕ). (x + m) % n) (tail_next h) ∙ around-suc n r.tail m);
  }

  contents-push :
      {m : ℕ} {r : SpscRing A} (v : A)
      → Holds n m r
      → contents (record r { ring = set r.ring r.head v; head = advance n r.head }) (suc m)
        ≡ contents r m ++ (v ∷ [])
  contents-push {m} {r} v h =
      window-set_end blank n r.ring r.tail m r.head v h.tail_in h.some_free (omega (arith, h.size))
        h.head_is

  -- No sequence of calls tells the ring from the queue of the values that it holds.
  run_ring-queue :
      (ops : List (Op A)) (r : SpscRing A) (m : ℕ)
      → Holds n m r
      → run_ring n ops r ≡ run_queue n ops (contents r m)
  unfolding run_ring run_queue push pop empty
  run_ring-queue [] r m h = refl
  run_ring-queue (push_op v ∷ ops) r m h =
      let test = full_test h in
      let stay = run_ring-queue ops r m h in
      elim (Bool-cases (length (contents r m) + 1 == n)) [
        | inl full ↦ rw (test, full) (ap (◌∷◌ (flag false)) stay)
        | inr room ↦
            let r' : SpscRing A = record r {
              ring = set r.ring r.head v;
              head = advance n r.head;
            } in
            rw (test, room)
              (ap (◌∷◌ (flag true)) (
                run_ring-queue ops r' (suc m) (Holds-push v h room)
                ∙ ap (run_queue n ops) (contents-push v h)))
      ]
  run_ring-queue (pop_op x ∷ ops) r zero h =
      rw (empty_test h) (ap (◌∷◌ (value false x)) (run_ring-queue ops r zero h))
  run_ring-queue (pop_op x ∷ ops) r (suc m) h =
      rw (empty_test h, suc_test m)
        (ap₂ (λ a rest. value true a ∷ rest)
          (get_or_default r.ring r.tail x blank (rw h.size h.tail_in))
          (run_ring-queue ops (record r { tail = advance n r.tail }) m (Holds-pop h)
            ∙ ap (λ (t : ℕ). run_queue n ops (window blank n r.ring t m)) (tail_next h)))
  run_ring-queue (empty_op ∷ ops) r zero h =
      rw (empty_test h) (ap (◌∷◌ (flag true)) (run_ring-queue ops r zero h))
  run_ring-queue (empty_op ∷ ops) r (suc m) h =
      rw (empty_test h, suc_test m) (ap (◌∷◌ (flag false)) (run_ring-queue ops r (suc m) h))

-- For a ring of size 2^k, k at most 63, with m values from its tail on: any sequence of `push`,
-- `pop` and `empty` calls returns what the same calls return on the list of those values, oldest
-- first, that takes a value while it has fewer than 2^k - 1.
pub run_refines {ℓ} :
    {A : Type ℓ} (blank : A) (k : ℕ) (ops : List (Op A)) (r : SpscRing A) (m : ℕ)
    → k ≤ 63
    → Holds (2 ^ k) m r
    → run_ring (2 ^ k) ops r ≡ run_queue (2 ^ k) ops (window blank (2 ^ k) r.ring r.tail m)
run_refines blank k ops r m small h = run_ring-queue blank k small ops r m h
