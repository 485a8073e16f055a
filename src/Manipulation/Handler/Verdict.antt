-- ===== src/Manipulation/Handler/Verdict.antt =====
-- What `evaluate` reports of a frame, for any strategies that were applied to it.
use cancept.Prelude.{
  ℕ, ◌≡◌, refl, sym, ap, ◌∙◌, Bool, true, false, ◌||◌, List, [], ◌∷◌, ◌++◌, none, some,
  if◌then◌else◌, max, arith, append_assoc, append-nil,
}
use cancept.Core.Float.{Float}
use cancept.Core.Dto.{DbcCanMessage}
use cancept.Manipulation.Random.{Random}
use cancept.Manipulation.Triggers.{SignalMap}
use cancept.Manipulation.Types.{RawStrategy, DbcStrategy, insert_strategy}
use cancept.Manipulation.Handler.{
  PendingInsertion, RawFrame, ManipulationHandler, apply_raw_strategy, apply_dbc_strategy, evaluate,
}

delay_after :
    (old here later : Bool) (d x y : ℕ)
    → (if (old || here) || later
        then 0
        else max (if old || here then (if here then 0 else d) else max d x) y)
      ≡ (if old || (here || later) then 0 else max d (max x y))
delay_after true here later d x y = refl
delay_after false true later d x y = refl
delay_after false false true d x y = refl
delay_after false false false d x y = omega arith

module _ (F : Float) (R : Random F) where
  open F use {Real}

  -- One application of a strategy, to the frame as it stands at that moment.
  pub data Applied : Type 0 where
    to_raw : RawStrategy → RawFrame → Applied
    to_dbc : DbcStrategy Real → SignalMap → DbcCanMessage Real → Applied

  unfoldable pub apply : Applied → ManipulationHandler F R → ManipulationHandler F R
  apply (to_raw s f) h = (apply_raw_strategy F R s h f).0
  apply (to_dbc s m message) h = (apply_dbc_strategy F R s m h message).0

  unfoldable pub apply_all : List Applied → ManipulationHandler F R → ManipulationHandler F R
  apply_all [] h = h
  apply_all (a ∷ rest) h = apply_all rest (apply a h)

  -- The independent description.
  abbrev pub drops : Applied → Bool
  drops (to_raw RawStrategy.drop_strategy f) = true
  drops (to_dbc DbcStrategy.drop_strategy m message) = true
  drops _ = false

  abbrev pub delay_of : Applied → ℕ
  delay_of (to_raw (RawStrategy.delayed_strategy us) f) = us
  delay_of (to_dbc (DbcStrategy.delayed_strategy us) m message) = us
  delay_of _ = 0

  abbrev pub insertion_of : Applied → List (PendingInsertion Real)
  insertion_of (to_dbc (insert_strategy us none) m message) =
      record { delay_offset = us; message = message } ∷ []
  insertion_of (to_dbc (insert_strategy us (some x)) m message) =
      record { delay_offset = us; message = x } ∷ []
  insertion_of _ = []

  abbrev pub any_drop : List Applied → Bool
  any_drop [] = false
  any_drop (a ∷ rest) = drops a || any_drop rest

  abbrev pub longest_delay : List Applied → ℕ
  longest_delay [] = 0
  longest_delay (a ∷ rest) = max (delay_of a) (longest_delay rest)

  abbrev pub all_insertions : List Applied → List (PendingInsertion Real)
  all_insertions [] = []
  all_insertions (a ∷ rest) = insertion_of a ++ all_insertions rest

  -- What one application does to the three fields of the frame.
  record Frame (a : Applied) (h : ManipulationHandler F R) : Type 0 where
    drop_is : (apply a h).frame_drop ≡ h.frame_drop || drops a
    delay_is : (apply a h).frame_max_delay_us ≡ (
        if h.frame_drop || drops a
        then (if drops a then 0 else h.frame_max_delay_us)
        else max h.frame_max_delay_us (delay_of a))
    insertions_are : (apply a h).frame_insertions ≡ h.frame_insertions ++ insertion_of a

  apply-Frame : (a : Applied) (h : ManipulationHandler F R) → Frame a h
  unfolding apply apply_raw_strategy apply_dbc_strategy
  apply-Frame (to_raw (RawStrategy.effect_strategy es) f) h =
      ground (arith, append-nil h.frame_insertions)
  apply-Frame (to_raw (RawStrategy.delayed_strategy us) f) h =
      ground (arith, append-nil h.frame_insertions)
  apply-Frame (to_raw RawStrategy.drop_strategy f) h = ground (arith, append-nil h.frame_insertions)
  apply-Frame (to_dbc (DbcStrategy.effect_strategy es) m message) h =
      ground (arith, append-nil h.frame_insertions)
  apply-Frame (to_dbc (DbcStrategy.delayed_strategy us) m message) h =
      ground (arith, append-nil h.frame_insertions)
  apply-Frame (to_dbc DbcStrategy.drop_strategy m message) h =
      ground (arith, append-nil h.frame_insertions)
  apply-Frame (to_dbc (insert_strategy us none) m message) h =
      ground (arith, append-nil h.frame_insertions)
  apply-Frame (to_dbc (insert_strategy us (some x)) m message) h =
      ground (arith, append-nil h.frame_insertions)

  -- A dropped frame has no delay.
  abbrev pub Settled : ManipulationHandler F R → Type 0
  Settled h = h.frame_drop ≡ true → h.frame_max_delay_us ≡ 0

  pub apply-Settled : (a : Applied) (h : ManipulationHandler F R) → Settled h → Settled (apply a h)
  apply-Settled a h s e = let f = apply-Frame a h in ground (arith, s)

  pub record Outcome (list : List Applied) (h after : ManipulationHandler F R) : Type 0 where
    pub drop_is : after.frame_drop ≡ h.frame_drop || any_drop list
    pub delay_is : after.frame_max_delay_us ≡ (
        if h.frame_drop || any_drop list then 0 else max h.frame_max_delay_us (longest_delay list))
    pub insertions_are : after.frame_insertions ≡ h.frame_insertions ++ all_insertions list

  pub apply_all-Outcome :
      (list : List Applied) (h : ManipulationHandler F R)
      → Settled h
      → Outcome list h (apply_all list h)
  unfolding apply_all
  apply_all-Outcome [] h s = record {
    drop_is = ground arith;
    delay_is = ground (arith, s);
    insertions_are = sym (append-nil h.frame_insertions);
  }
  apply_all-Outcome (a ∷ rest) h s =
      let f = apply-Frame a h in
      let o = apply_all-Outcome rest (apply a h) (apply-Settled a h s) in
      record {
        drop_is = ground (arith, f.drop_is, o.drop_is);
        delay_is =
            o.delay_is
            ∙ rw (f.drop_is, f.delay_is)
                (delay_after h.frame_drop (drops a) (any_drop rest) h.frame_max_delay_us
                  (delay_of a) (longest_delay rest));
        insertions_are =
            o.insertions_are
            ∙ ap (λ xs. xs ++ all_insertions rest) f.insertions_are
            ∙ append_assoc h.frame_insertions (insertion_of a) (all_insertions rest);
      }

  -- For any sequence of raw and signal strategies applied to a frame after the last `evaluate`: the
  -- frame is dropped exactly if one of them drops it; its delay is 0 if it is dropped and the
  -- longest requested delay if not, whatever the order; the insertions are all that were requested,
  -- in order, dropped or not; and `evaluate` leaves nothing behind for the next frame.
  pub evaluate-apply_all :
      (list : List Applied) (h : ManipulationHandler F R)
      → let (result, next) = evaluate F R (apply_all list (evaluate F R h).1) in
        (result.drop ≡ any_drop list)
        × (result.delay_offset ≡ (if any_drop list then 0 else longest_delay list))
        × (result.insertions ≡ all_insertions list)
        × ((evaluate F R next).0 ≡ record { drop = false; delay_offset = 0; insertions = [] })
  unfolding evaluate
  evaluate-apply_all list h =
      let o = apply_all-Outcome list (evaluate F R h).1 (λ e. refl) in
      (
        o.drop_is,
        o.delay_is ∙ ap (λ (n : ℕ). if any_drop list then 0 else n) (omega arith),
        o.insertions_are,
        refl,
      )
