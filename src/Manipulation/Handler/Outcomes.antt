-- ===== src/Manipulation/Handler/Outcomes.antt =====
-- How the effects of several strategies on the pending verdict of a frame add up, and that a latch
-- leaves the verdict alone.
use cancept.Prelude.{
  ℕ, suc, ◌≤◌, ◌≡◌, refl, sym, ap, ◌∙◌, Bool, true, false, ◌||◌, List, [], ◌∷◌, ◌++◌, if◌then◌else◌,
  get_or, max, arith, get_or-set_ne, append_assoc,
}
use cancept.Core.Float.{Float}
use cancept.Manipulation.Random.{Random}
use cancept.Manipulation.Types.{RawManipulation, DbcManipulation}
use cancept.Manipulation.Handler.Verdict.{
  Applied, apply, apply_all, any_drop, longest_delay, all_insertions, insertion_of, Settled,
  Outcome, apply_all-Outcome,
}
use cancept.Manipulation.Handler.{ManipulationHandler, latch_raw, latch_dbc}

delay_append :
    (old one two : Bool) (d x y : ℕ)
    → (if (old || one) || two then 0 else max (if old || one then 0 else max d x) y)
      ≡ (if old || (one || two) then 0 else max d (max x y))
delay_append true one two d x y = refl
delay_append false true two d x y = refl
delay_append false false true d x y = refl
delay_append false false false d x y = omega arith

or_assoc : (x y z : Bool) → (x || y) || z ≡ x || (y || z)
or_assoc x y z = ground arith

delay_settled : (b : Bool) (n d : ℕ) → d ≡ (if b then 0 else n) → b ≡ true → d ≡ 0
delay_settled b n d h e = ground arith

module _ (F : Float) (R : Random F) where
  open F use {Real}
  open R use {Engine, Chance}

  any_drop-append :
      (a b : List (Applied F R)) → any_drop F R (a ++ b) ≡ any_drop F R a || any_drop F R b
  any_drop-append [] b = refl
  any_drop-append (x ∷ a) b = ground (arith, any_drop-append a b)

  longest_delay-append :
      (a b : List (Applied F R))
      → longest_delay F R (a ++ b) ≡ max (longest_delay F R a) (longest_delay F R b)
  longest_delay-append [] b = omega arith
  longest_delay-append (x ∷ a) b = omega (arith, longest_delay-append a b)

  all_insertions-append :
      (a b : List (Applied F R))
      → all_insertions F R (a ++ b) ≡ all_insertions F R a ++ all_insertions F R b
  all_insertions-append [] b = refl
  all_insertions-append (x ∷ a) b =
      ap (λ xs. insertion_of F R x ++ xs) (all_insertions-append a b)
      ∙ sym (append_assoc (insertion_of F R x) (all_insertions F R a) (all_insertions F R b))

  module _ {h h' h'' : ManipulationHandler F R} {a b : List (Applied F R)} where
    pub Outcome-append : Outcome F R a h h' → Outcome F R b h' h'' → Outcome F R (a ++ b) h h''
    Outcome-append o p = record {
      drop_is = p.drop_is ∙ rw (o.drop_is, any_drop-append) (or_assoc h.frame_drop _ _);
      delay_is =
          p.delay_is
          ∙ rw (o.drop_is, o.delay_is, any_drop-append, longest_delay-append)
              (delay_append h.frame_drop (any_drop F R a) (any_drop F R b) h.frame_max_delay_us
                (longest_delay F R a) (longest_delay F R b));
      insertions_are =
          p.insertions_are
          ∙ rw (o.insertions_are, all_insertions-append) (append_assoc h.frame_insertions _ _);
    }

  pub Outcome-Settled :
      {h h' : ManipulationHandler F R} {a : List (Applied F R)}
      → Outcome F R a h h'
      → Settled F R h'
  Outcome-Settled {h' = h'} o e =
      delay_settled _ _ h'.frame_max_delay_us o.delay_is (sym o.drop_is ∙ e)

  -- The flags from `i` on are still those of the beginning.
  abbrev pub SameFrom : ℕ → List Bool → List Bool → Type 0
  SameFrom i a b = (j : ℕ) → i ≤ j → get_or b j false ≡ get_or a j false

  -- A handler that differs in its latches and its generator only.
  pub record SameFrame (h g : ManipulationHandler F R) : Type 0 where
    pub same_drop : g.frame_drop ≡ h.frame_drop
    pub same_delay : g.frame_max_delay_us ≡ h.frame_max_delay_us
    pub same_insertions : g.frame_insertions ≡ h.frame_insertions

  pub SameFrame-Outcome :
      {h g : ManipulationHandler F R} (list : List (Applied F R)) (h' : ManipulationHandler F R)
      → SameFrame h g
      → Outcome F R list g h'
      → Outcome F R list h h'
  SameFrame-Outcome list h' s o = record {
    drop_is = rw (← s.same_drop) o.drop_is;
    delay_is = rw (← s.same_drop, ← s.same_delay) o.delay_is;
    insertions_are = rw (← s.same_insertions) o.insertions_are;
  }

  pub apply-Outcome :
      (a : Applied F R) (h : ManipulationHandler F R)
      → Settled F R h
      → Outcome F R (a ∷ []) h (apply F R a h)
  apply-Outcome a h s = unfold apply_all in apply_all-Outcome F R (a ∷ []) h s

  pub Outcome-nil :
      (h : ManipulationHandler F R) (rng : Engine)
      → Settled F R h
      → Outcome F R [] h (record h { random = rng })
  Outcome-nil h rng s =
      let o = apply_all-Outcome F R [] h s in
      unfold apply_all in
      record { drop_is = o.drop_is; delay_is = o.delay_is; insertions_are = o.insertions_are }

  pub latch_raw-SameFrame :
      (m : RawManipulation Chance) (i : ℕ) (h : ManipulationHandler F R) (rng : Engine)
      → SameFrame h (latch_raw F R m i (record h { random = rng }))
  unfolding latch_raw
  latch_raw-SameFrame m i h rng = ground arith

  pub latch_raw-SameFrom :
      (m : RawManipulation Chance) (i : ℕ) (h : ManipulationHandler F R) (rng : Engine)
      → SameFrom (suc i) h.raw_latched (latch_raw F R m i (record h { random = rng })).raw_latched
  unfolding latch_raw
  latch_raw-SameFrom m i h rng j hj =
      ground (arith, get_or-set_ne h.raw_latched i j true false (omega arith))

  pub latch_dbc-SameFrame :
      (m : DbcManipulation Real Chance) (i : ℕ) (h : ManipulationHandler F R) (rng : Engine)
      → SameFrame h (latch_dbc F R m i (record h { random = rng }))
  unfolding latch_dbc
  latch_dbc-SameFrame m i h rng = ground arith

  pub latch_dbc-SameFrom :
      (m : DbcManipulation Real Chance) (i : ℕ) (h : ManipulationHandler F R) (rng : Engine)
      → SameFrom (suc i) h.dbc_latched (latch_dbc F R m i (record h { random = rng })).dbc_latched
  unfolding latch_dbc
  latch_dbc-SameFrom m i h rng j hj =
      ground (arith, get_or-set_ne h.dbc_latched i j true false (omega arith))
