-- ===== src/Manipulation/Handler/Valid.antt =====
-- The invariant of `ManipulationHandler`, what `inject` leaves alone, and how entries latch.
use cancept.Prelude.{
  ℕ, ◌+◌, ◌≡◌, refl, true, false, List, [], ◌∷◌, length, get_or, arith, Bool-cases, inl, inr,
  length-set, length-replicate,
}
use cancept.Core.Float.{Float}
use cancept.Core.Dto.{DbcCanMessage}
use cancept.Manipulation.Random.{Random}
use cancept.Manipulation.Triggers.{SignalMap}
use cancept.Manipulation.Types.{RawStrategy, DbcStrategy, RawManipulation, DbcManipulation}
use cancept.Manipulation.Handler.Verdict.{to_raw, to_dbc, apply, apply-Settled}
use cancept.Manipulation.Handler.{
  raw_triggered, dbc_triggered, latch_raw, latch_dbc, RawFrame, ManipulationHandler, new_handler,
  apply_raw_strategy, apply_dbc_strategy, inject_raw_at, inject_raw_from, inject_raw, inject_dbc_at,
  inject_dbc_from, inject_dbc, evaluate,
}

module _ (F : Float) (R : Random F) where
  open F use {Real}
  open R use {Engine, Chance}

  -- A latch flag for each entry, and no delay for a frame that is dropped.
  pub record IsValid (h : ManipulationHandler F R) : Type 0 where
    pub raw_sizes : length h.raw_latched ≡ length h.raw_manipulations
    pub dbc_sizes : length h.dbc_latched ≡ length h.dbc_manipulations
    pub settled : h.frame_drop ≡ true → h.frame_max_delay_us ≡ 0

  -- The parts of the state that the strategies do not touch.
  pub record SameSetup (h h' : ManipulationHandler F R) : Type 0 where
    pub raw_same : h'.raw_manipulations ≡ h.raw_manipulations
    pub dbc_same : h'.dbc_manipulations ≡ h.dbc_manipulations
    pub raw_flags : h'.raw_latched ≡ h.raw_latched
    pub dbc_flags : h'.dbc_latched ≡ h.dbc_latched

  pub apply_raw_strategy-SameSetup :
      (s : RawStrategy) (h : ManipulationHandler F R) (f : RawFrame)
      → SameSetup h (apply_raw_strategy F R s h f).0
  unfolding apply_raw_strategy
  apply_raw_strategy-SameSetup (RawStrategy.effect_strategy es) h f = ground arith
  apply_raw_strategy-SameSetup _ h f = ground arith

  pub apply_dbc_strategy-SameSetup :
      (s : DbcStrategy Real) (m : SignalMap) (h : ManipulationHandler F R) (x : DbcCanMessage Real)
      → SameSetup h (apply_dbc_strategy F R s m h x).0
  unfolding apply_dbc_strategy
  apply_dbc_strategy-SameSetup (DbcStrategy.effect_strategy es) m h x = ground arith
  apply_dbc_strategy-SameSetup _ m h x = ground arith

  apply_raw_strategy-IsValid :
      (s : RawStrategy) (h : ManipulationHandler F R) (f : RawFrame)
      → IsValid h
      → IsValid (apply_raw_strategy F R s h f).0
  apply_raw_strategy-IsValid s h f v =
      let same = apply_raw_strategy-SameSetup s h f in
      record {
        raw_sizes = rw (same.raw_same, same.raw_flags) v.raw_sizes;
        dbc_sizes = rw (same.dbc_same, same.dbc_flags) v.dbc_sizes;
        settled = unfold apply in apply-Settled F R (to_raw s f) h v.settled;
      }

  apply_dbc_strategy-IsValid :
      (s : DbcStrategy Real) (m : SignalMap) (h : ManipulationHandler F R) (x : DbcCanMessage Real)
      → IsValid h
      → IsValid (apply_dbc_strategy F R s m h x).0
  apply_dbc_strategy-IsValid s m h x v =
      let same = apply_dbc_strategy-SameSetup s m h x in
      record {
        raw_sizes = rw (same.raw_same, same.raw_flags) v.raw_sizes;
        dbc_sizes = rw (same.dbc_same, same.dbc_flags) v.dbc_sizes;
        settled = unfold apply in apply-Settled F R (to_dbc s m x) h v.settled;
      }

  latch_raw-IsValid :
      (m : RawManipulation Chance) (i : ℕ) (h : ManipulationHandler F R)
      → IsValid h
      → IsValid (latch_raw F R m i h)
  unfolding latch_raw
  latch_raw-IsValid m i h v = ground (arith, length-set h.raw_latched i true)

  latch_dbc-IsValid :
      (m : DbcManipulation Real Chance) (i : ℕ) (h : ManipulationHandler F R)
      → IsValid h
      → IsValid (latch_dbc F R m i h)
  unfolding latch_dbc
  latch_dbc-IsValid m i h v = ground (arith, length-set h.dbc_latched i true)

  drawn-IsValid :
      {h : ManipulationHandler F R} (rng : Engine) → IsValid h → IsValid (record h { random = rng })
  drawn-IsValid rng v = record {
    raw_sizes = v.raw_sizes;
    dbc_sizes = v.dbc_sizes;
    settled = v.settled;
  }

  inject_raw_at-IsValid :
      (m : RawManipulation Chance) (i : ℕ) (h : ManipulationHandler F R) (f : RawFrame)
      → IsValid h
      → IsValid (inject_raw_at F R m i h f).0
  unfolding inject_raw_at
  inject_raw_at-IsValid m i h f v =
      let asked = raw_triggered F R m h f in
      let drawn = drawn-IsValid asked.1 v in
      elim (Bool-cases (get_or h.raw_latched i false)) [
        | inl old ↦ rw old (apply_raw_strategy-IsValid m.strategy h f v)
        | inr new ↦ elim (Bool-cases asked.0) [
          | inl fires ↦
              rw (new, fires)
                (apply_raw_strategy-IsValid m.strategy _ f (latch_raw-IsValid m i _ drawn))
          | inr quiet ↦ rw (new, quiet) drawn
        ]
      ]

  inject_dbc_at-IsValid :
      (m : DbcManipulation Real Chance) (i : ℕ) (map : SignalMap) (h : ManipulationHandler F R)
      (x : DbcCanMessage Real)
      → IsValid h
      → IsValid (inject_dbc_at F R m i map h x).0
  unfolding inject_dbc_at
  inject_dbc_at-IsValid m i map h x v =
      let asked = dbc_triggered F R m map h x in
      let drawn = drawn-IsValid asked.1 v in
      elim (Bool-cases (get_or h.dbc_latched i false)) [
        | inl old ↦ rw old (apply_dbc_strategy-IsValid m.strategy map h x v)
        | inr new ↦ elim (Bool-cases asked.0) [
          | inl fires ↦
              rw (new, fires)
                (apply_dbc_strategy-IsValid m.strategy map _ x (latch_dbc-IsValid m i _ drawn))
          | inr quiet ↦ rw (new, quiet) drawn
        ]
      ]

  inject_raw_from-IsValid :
      (ms : List (RawManipulation Chance)) (i : ℕ) (h : ManipulationHandler F R) (f : RawFrame)
      → IsValid h
      → IsValid (inject_raw_from F R ms i h f).0
  unfolding inject_raw_from
  inject_raw_from-IsValid [] i h f v = v
  inject_raw_from-IsValid (m ∷ ms) i h f v =
      inject_raw_from-IsValid ms (i + 1) _ _ (inject_raw_at-IsValid m i h f v)

  inject_dbc_from-IsValid :
      (ms : List (DbcManipulation Real Chance)) (i : ℕ) (map : SignalMap)
      (h : ManipulationHandler F R) (x : DbcCanMessage Real)
      → IsValid h
      → IsValid (inject_dbc_from F R ms i map h x).0
  unfolding inject_dbc_from
  inject_dbc_from-IsValid [] i map h x v = v
  inject_dbc_from-IsValid (m ∷ ms) i map h x v =
      inject_dbc_from-IsValid ms (i + 1) map _ _ (inject_dbc_at-IsValid m i map h x v)

  -- What the worker does with a handler, in any order.
  pub data Use : Type 0 where
    inject_raw_use : RawFrame → Use
    inject_dbc_use : DbcCanMessage Real → Use
    evaluate_use : Use

  unfoldable pub use_handler : List Use → ManipulationHandler F R → ManipulationHandler F R
  use_handler [] h = h
  use_handler (inject_raw_use f ∷ us) h = use_handler us (inject_raw F R h f).0
  use_handler (inject_dbc_use x ∷ us) h = use_handler us (inject_dbc F R h x).0
  use_handler (evaluate_use ∷ us) h = use_handler us (evaluate F R h).1

  use_handler-IsValid :
      (us : List Use) (h : ManipulationHandler F R) → IsValid h → IsValid (use_handler us h)
  unfolding use_handler inject_raw inject_dbc evaluate
  use_handler-IsValid [] h v = v
  use_handler-IsValid (inject_raw_use f ∷ us) h v =
      use_handler-IsValid us _ (inject_raw_from-IsValid h.raw_manipulations 0 h f v)
  use_handler-IsValid (inject_dbc_use x ∷ us) h v =
      use_handler-IsValid us _ (inject_dbc_from-IsValid h.dbc_manipulations 0 _ h x v)
  use_handler-IsValid (evaluate_use ∷ us) h v =
      use_handler-IsValid us _
        (record { raw_sizes = v.raw_sizes; dbc_sizes = v.dbc_sizes; settled = λ e. refl })

  -- In a new handler, and after any sequence of `inject` and `evaluate` calls on it, there is a
  -- latch flag for each raw and for each signal manipulation, and a frame that is to be dropped has
  -- no delay.
  pub new_handler-IsValid :
      (raw : List (RawManipulation Chance)) (dbc : List (DbcManipulation Real Chance))
      (rng : Engine) (us : List Use)
      → IsValid (use_handler us (new_handler F R raw dbc rng))
  unfolding new_handler
  new_handler-IsValid raw dbc rng us = use_handler-IsValid us _ (record {
    raw_sizes = length-replicate (length raw) false;
    dbc_sizes = length-replicate (length dbc) false;
    settled = λ e. refl;
  })
