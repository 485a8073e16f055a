-- ===== src/Repeated/Ticks.antt =====
-- The times for which items are made.
use cancept.Prelude.{
  ℕ, zero, suc, ◌≡◌, ◌⊎◌, inl, inr, refl, sym, ap, ◌∙◌, subst, Bool, true, false, List, [], ◌∷◌,
  ◌++◌, map, Option, none, some, length, by_test, arith, ltb→lt, lt→ltb, not, ◌||◌, if◌then◌else◌,
  All,
}
use cancept.Prelude.Int.{ℤ, pos, ◌+ℤ◌, ◌*ℤ◌, ◌≤ℤ◌, ltb_ℤ, +ℤ_mono}
use cancept.Queue.{ScheduledItem}
use cancept.Repeated.{
  CreateCallback, RepeatedWorker, Round, Event, called, pushed, error_occurred, start_creating,
  update_interval, update_all, interval_ns, create, reset, after_round, repeat, produce,
}

-- The times with which the callback is called.
unfoldable pub calls : {J : Type 0} → List (Event J) → List ℤ
calls [] = []
calls (called t ∷ es) = t ∷ calls es
calls (pushed item ∷ es) = calls es
calls (error_occurred ∷ es) = calls es

-- So many times at a distance, behind the first one.
unfoldable pub ticks : ℤ → ℤ → ℕ → List ℤ
ticks distance t zero = []
ticks distance t (suc n) = (t +ℤ distance) ∷ ticks distance (t +ℤ distance) n

unfoldable pub IsQuiet : {M : Type 0} → Round M → Type 0
IsQuiet r = (r.before ≡ []) × (r.during ≡ [])

-- Each of these times is at least so far behind the one before it.
unfoldable pub Climbs : ℤ → ℤ → List ℤ → Type 0
Climbs gap t [] = Unit
Climbs gap t (u ∷ us) = (t +ℤ gap ≤ℤ u) × Climbs gap u us

-- An interval that is not taken, or that is long enough.
unfoldable pub IsLong : ℤ → ℤ → Type 0
IsLong least interval = (interval ≤ℤ pos 0) ⊎ (least ≤ℤ interval)

positive_not : (i : ℤ) → ltb_ℤ (pos 0) i ≡ true → i ≤ℤ pos 0 → ⊥
positive_not i e h = let p = ltb→lt _ _ e in omega (arith, p, h)

taken_long : (least i : ℤ) → IsLong least i → ltb_ℤ (pos 0) i ≡ true → least ≤ℤ i
unfolding IsLong
taken_long least i (inl refused) e = absurd (positive_not i e refused)
taken_long least i (inr long) e = long

either_later : (b : Bool) (x y z : ℤ) → z ≤ℤ x → z ≤ℤ y → z ≤ℤ (if b then x else y)
either_later true x y z h k = h
either_later false x y z h k = k

thousandfold : (a b : ℤ) → a ≤ℤ b → a *ℤ pos 1000 ≤ℤ b *ℤ pos 1000
unfolding ◌*ℤ◌
thousandfold a b h = ground (arith, h)

positive : (i : ℤ) → pos 1 ≤ℤ i → ltb_ℤ (pos 0) i ≡ true
positive i h = lt→ltb _ _ (omega (arith, h))

no_guard : (a b : Bool) → a ≡ false → b ≡ true → (a || not b) ≡ false
no_guard a b e f = ground (arith, e, f)

-- All the intervals that are set in a round.
unfoldable pub SetsLong : {M : Type 0} → ℤ → Round M → Type 0
SetsLong least r = All (IsLong least) r.before × All (IsLong least) r.during

module _ {J : Type 0} where
  calls-items :
      (items : List (ScheduledItem J)) (es : List (Event J))
      → calls (map pushed items ++ es) ≡ calls es
  unfolding calls
  calls-items [] es = refl
  calls-items (x ∷ items) es = calls-items items es

  calls-made :
      (o : Option (List (ScheduledItem J))) (es : List (Event J))
      → calls ((elim o [ none ↦ error_occurred ∷ [] | some items ↦ map pushed items ]) ++ es)
        ≡ calls es
  unfolding calls
  calls-made none es = refl
  calls-made (some items) es = calls-items items es

module _ {M J : Type 0} where
  calls-create :
      (callback : CreateCallback M J) (found : M) (t : ℤ) (es : List (Event J))
      → calls (create callback found t ++ es) ≡ t ∷ calls es
  unfolding create calls
  calls-create callback found t es = ap (λ r. t ∷ r) (calls-made (callback found t) es)

  update_interval-IsLong :
      (least i : ℤ) (w : RepeatedWorker M J)
      → IsLong least i
      → least ≤ℤ w.interval_us
      → least ≤ℤ (update_interval i w).interval_us
  unfolding update_interval IsLong
  update_interval-IsLong least i w h l =
      by_test (ltb_ℤ (pos 0) i) _ _ (λ (v : RepeatedWorker M J). least ≤ℤ v.interval_us)
        (λ e. taken_long least i h e) (λ e. l)

  -- The interval stays long if each that is set is refused or long.
  update_all-IsLong :
      (least : ℤ) (is : List ℤ) (w : RepeatedWorker M J)
      → All (IsLong least) is
      → least ≤ℤ w.interval_us
      → least ≤ℤ (update_all is w).interval_us
  unfolding All update_all
  update_all-IsLong least [] w h l = l
  update_all-IsLong least (i ∷ is) w h l =
      update_all-IsLong least is (update_interval i w) h.1 (update_interval-IsLong least i w h.0 l)

  after_round-IsQuiet :
      (deadline : ℤ) (r : Round M) (w : RepeatedWorker M J)
      → IsQuiet r
      → w.reset_guard ≡ false
      → after_round deadline r w ≡ (deadline +ℤ interval_ns w, record w { reset_guard = false })
  unfolding after_round update_all reset IsQuiet
  after_round-IsQuiet deadline r w (b, d) g =
      ap
        (λ is.
          let read = update_all is w in
          reset r.now (interval_ns read) (deadline +ℤ interval_ns read) (update_all r.during read))
        b
      ∙ ap (λ is. reset r.now (interval_ns w) (deadline +ℤ interval_ns w) (update_all is w)) d
      ∙ ap
          (λ x. (
            if x then r.now +ℤ interval_ns w else deadline +ℤ interval_ns w,
            record w { reset_guard = false },
          ))
          g

  later : CreateCallback M J → List (Round M) → ℤ → ℤ × RepeatedWorker M J → List ℤ
  later callback rs t p = t ∷ calls (repeat callback p.0 rs p.1)

  -- A worker that nobody changes calls back at the ticks.
  calls-repeat :
      (callback : CreateCallback M J) (start : ℤ) (rs : List (Round M)) (w : RepeatedWorker M J)
      → All IsQuiet rs
      → w.reset_guard ≡ false
      → calls (repeat callback start rs w) ≡ ticks (interval_ns w) start (length rs)
  unfolding All repeat ticks calls update_all interval_ns later IsQuiet
  calls-repeat callback start [] w h g = refl
  calls-repeat callback start (r ∷ rs) w h g =
      calls-create callback r.found (start +ℤ interval_ns (update_all r.before w)) _
      ∙ ap
          (λ is.
            (start +ℤ interval_ns (update_all is w))
            ∷ calls (repeat callback (after_round start r w).0 rs (after_round start r w).1))
          h.0.0
      ∙ ap (later callback rs (start +ℤ interval_ns w)) (after_round-IsQuiet start r w h.0 g)
      ∙ ap (λ ts. (start +ℤ interval_ns w) ∷ ts)
          (calls-repeat callback (start +ℤ interval_ns w) rs (record w { reset_guard = false }) h.1
            refl)

  -- The clock is never before the time that the thread has waited for.
  unfoldable pub IsPunctual : ℤ → List (Round M) → RepeatedWorker M J → Type 0
  unfolding after_round
  IsPunctual deadline [] w = Unit
  IsPunctual deadline (r ∷ rs) w =
      let next = after_round deadline r w in (deadline ≤ℤ r.now) × IsPunctual next.0 rs next.1

  later_deadline :
      (deadline : ℤ) (r : Round M) (w : RepeatedWorker M J)
      → deadline ≤ℤ r.now
      → deadline +ℤ interval_ns (update_all r.before w) ≤ℤ (after_round deadline r w).0
  unfolding after_round reset
  later_deadline deadline r w h =
      either_later (update_all r.during (update_all r.before w)).reset_guard _ _ _
        (+ℤ_mono deadline r.now _ _ h (omega arith)) (omega arith)

  repeat-Climbs :
      (least : ℤ) (callback : CreateCallback M J) (t deadline : ℤ) (rs : List (Round M))
      (w : RepeatedWorker M J)
      → All (SetsLong least) rs
      → least ≤ℤ w.interval_us
      → t ≤ℤ deadline
      → IsPunctual deadline rs w
      → Climbs (least *ℤ pos 1000) t (calls (repeat callback deadline rs w))
  unfolding All IsPunctual SetsLong Climbs calls repeat interval_ns after_round reset
  repeat-Climbs least callback t deadline [] w h l b p = tt
  repeat-Climbs least callback t deadline (r ∷ rs) w h l b p =
      let read = update_all-IsLong least r.before w h.0.0 l in
      let next = deadline +ℤ interval_ns (update_all r.before w) in
      subst (Climbs (least *ℤ pos 1000) t) (sym (calls-create callback r.found next _)) (
        +ℤ_mono t deadline _ _ b (thousandfold least _ read),
        repeat-Climbs least callback next (after_round deadline r w).0 rs
            (after_round deadline r w).1 h.1
            (update_all-IsLong least r.during (update_all r.before w) h.0.1 read)
            (later_deadline deadline r w p.0) p.1,
      )

  started : CreateCallback M J → ℤ → RepeatedWorker M J → RepeatedWorker M J
  started callback interval w = record w {
    callback = some callback;
    interval_us = interval;
    should_stop = false;
    is_active = true;
  }

  start_creating-started :
      (callback : CreateCallback M J) (interval : ℤ) (w : RepeatedWorker M J)
      → w.is_active ≡ false
      → pos 1 ≤ℤ interval
      → start_creating (some callback) interval w ≡ started callback interval w
  unfolding start_creating started
  start_creating-started callback interval w a h =
      ap (λ b. elim b [ true ↦ w | false ↦ started callback interval w ])
        (no_guard w.is_active _ a (positive interval h))

  -- A worker that does not run and has no change pending is started with a positive interval that
  -- nobody changes. Then, whatever the clock shows and the callback does, the callback is called
  -- once in each round, and with the times that lie one, two, three, ... intervals behind the start
  -- of the thread: a round that takes long does not move those behind it.
  pub calls-produce :
      (callback : CreateCallback M J) (interval start : ℤ) (rs : List (Round M))
      (w : RepeatedWorker M J)
      → w.is_active ≡ false
      → w.reset_guard ≡ false
      → pos 1 ≤ℤ interval
      → All IsQuiet rs
      → calls (produce start rs (start_creating (some callback) interval w))
        ≡ ticks (interval *ℤ pos 1000) start (length rs)
  unfolding produce interval_ns started
  calls-produce callback interval start rs w a g h quiet =
      ap (λ v. calls (produce start rs v)) (start_creating-started callback interval w a h)
      ∙ calls-repeat callback start rs (started callback interval w) quiet g

  -- A worker that does not run is started with an interval of at least `least` microseconds, which is
  -- positive. Each interval that is set while it runs is refused, as it is not positive, or is that
  -- long as well, and the clock never shows a time before the one that the thread has waited for.
  -- Then each call of the callback is for a time at least `least` microseconds behind that of the
  -- call before it, and the first for one that far behind the start, whenever the interval changes.
  pub produce-Climbs :
      (least : ℤ) (callback : CreateCallback M J) (interval start : ℤ) (rs : List (Round M))
      (w : RepeatedWorker M J)
      → w.is_active ≡ false
      → pos 1 ≤ℤ least
      → least ≤ℤ interval
      → All (SetsLong least) rs
      → IsPunctual start rs (start_creating (some callback) interval w)
      → Climbs
          (least *ℤ pos 1000)
          start
          (calls (produce start rs (start_creating (some callback) interval w)))
  unfolding produce started
  produce-Climbs least callback interval start rs w a one l h p =
      let same = start_creating-started callback interval w a (omega (arith, one, l)) in
      subst (λ v. Climbs (least *ℤ pos 1000) start (calls (produce start rs v))) (sym same)
        (repeat-Climbs least callback start start rs (started callback interval w) h l (omega arith)
          (subst (IsPunctual start rs) same p))
