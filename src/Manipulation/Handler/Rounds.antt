-- ===== src/Manipulation/Handler/Rounds.antt =====
-- One round of each loop of `inject`.
use cancept.Prelude.{
  ℕ, suc, refl, sym, ap, ◌∙◌, Bool, false, ◌||◌, List, [], ◌∷◌, if◌then◌else◌, get_or, Bool-cases,
  inl, inr,
}
use cancept.Core.Float.{Float}
use cancept.Core.Dto.{DbcCanMessage}
use cancept.Manipulation.Random.{Random}
use cancept.Manipulation.Triggers.{SignalMap}
use cancept.Manipulation.Types.{RawManipulation, DbcManipulation}
use cancept.Manipulation.Handler.Verdict.{Applied, to_raw, to_dbc, apply, Settled, Outcome}
use cancept.Manipulation.Handler.Valid.{apply_raw_strategy-SameSetup, apply_dbc_strategy-SameSetup}
use cancept.Manipulation.Handler.{
  RawFrame, ManipulationHandler, raw_triggered, dbc_triggered, latch_raw, latch_dbc, inject_raw_at,
  inject_dbc_at,
}
use cancept.Manipulation.Handler.Outcomes.{
  SameFrom, Outcome-nil, SameFrame-Outcome, apply-Outcome, latch_raw-SameFrame, latch_raw-SameFrom,
  latch_dbc-SameFrame, latch_dbc-SameFrom,
}

module _ (F : Float) (R : Random F) where
  open F use {Real}
  open R use {Engine, Chance}

  -- One round of a loop of `inject`, over the latch flags `flags`, in which the entry is applied or
  -- not.
  pub record Round (applied : Bool) (a : Applied F R) (flags flags' : List Bool) (i : ℕ)
      (h h' : ManipulationHandler F R) : Type 0 where
    pub outcome : Outcome F R (if applied then a ∷ [] else []) h h'
    pub later_flags : SameFrom F R (suc i) flags flags'

  pub inject_raw_at-Round :
      (m : RawManipulation Chance) (i : ℕ) (h : ManipulationHandler F R) (f : RawFrame)
      → Settled F R h
      → Round
          (get_or h.raw_latched i false || (raw_triggered F R m h f).0)
          (to_raw m.strategy f)
          h.raw_latched
          (inject_raw_at F R m i h f).0.raw_latched
          i
          h
          (inject_raw_at F R m i h f).0
  unfolding inject_raw_at
  inject_raw_at-Round m i h f s =
      let asked = raw_triggered F R m h f in
      let latched = latch_raw F R m i (record h { random = asked.1 }) in
      let frame = latch_raw-SameFrame F R m i h asked.1 in
      elim (Bool-cases (get_or h.raw_latched i false)) [
        | inl old ↦ rw old (record {
          outcome = unfold apply in apply-Outcome F R (to_raw m.strategy f) h s;
          later_flags = λ j hj.
              ap (λ xs. get_or xs j false)
                (apply_raw_strategy-SameSetup F R m.strategy h f).raw_flags;
        })
        | inr new ↦ elim (Bool-cases asked.0) [
          | inl fires ↦
              rw (new, fires)
                (record {
                  outcome = SameFrame-Outcome F R _ _ frame (
                      unfold apply in
                      apply-Outcome F R (to_raw m.strategy f) latched
                        (λ e. frame.same_delay ∙ s (sym frame.same_drop ∙ e)));
                  later_flags = λ j hj.
                      ap (λ xs. get_or xs j false)
                        (apply_raw_strategy-SameSetup F R m.strategy latched f).raw_flags
                      ∙ latch_raw-SameFrom F R m i h asked.1 j hj;
                })
          | inr quiet ↦
              rw (new, quiet)
                (record { outcome = Outcome-nil F R h asked.1 s; later_flags = λ j hj. refl })
        ]
      ]

  pub inject_dbc_at-Round :
      (m : DbcManipulation Real Chance) (i : ℕ) (map : SignalMap) (h : ManipulationHandler F R)
      (x : DbcCanMessage Real)
      → Settled F R h
      → Round
          (get_or h.dbc_latched i false || (dbc_triggered F R m map h x).0)
          (to_dbc m.strategy map x)
          h.dbc_latched
          (inject_dbc_at F R m i map h x).0.dbc_latched
          i
          h
          (inject_dbc_at F R m i map h x).0
  unfolding inject_dbc_at
  inject_dbc_at-Round m i map h x s =
      let asked = dbc_triggered F R m map h x in
      let latched = latch_dbc F R m i (record h { random = asked.1 }) in
      let frame = latch_dbc-SameFrame F R m i h asked.1 in
      elim (Bool-cases (get_or h.dbc_latched i false)) [
        | inl old ↦ rw old (record {
          outcome = unfold apply in apply-Outcome F R (to_dbc m.strategy map x) h s;
          later_flags = λ j hj.
              ap (λ xs. get_or xs j false)
                (apply_dbc_strategy-SameSetup F R m.strategy map h x).dbc_flags;
        })
        | inr new ↦ elim (Bool-cases asked.0) [
          | inl fires ↦
              rw (new, fires)
                (record {
                  outcome = SameFrame-Outcome F R _ _ frame (
                      unfold apply in
                      apply-Outcome F R (to_dbc m.strategy map x) latched
                        (λ e. frame.same_delay ∙ s (sym frame.same_drop ∙ e)));
                  later_flags = λ j hj.
                      ap (λ xs. get_or xs j false)
                        (apply_dbc_strategy-SameSetup F R m.strategy map latched x).dbc_flags
                      ∙ latch_dbc-SameFrom F R m i h asked.1 j hj;
                })
          | inr quiet ↦
              rw (new, quiet)
                (record { outcome = Outcome-nil F R h asked.1 s; later_flags = λ j hj. refl })
        ]
      ]
