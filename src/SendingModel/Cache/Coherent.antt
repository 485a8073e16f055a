-- ===== src/SendingModel/Cache/Coherent.antt =====
-- The cache of a repeated transmission against the messages that a single transmission would send:
-- it stays up to date while `setSignalValue` sets values and `setSignalEvaluator` registers
-- evaluators.
use cancept.Prelude.{
  ℕ, ◌%◌, ◌^◌, ◌≤◌, ◌<◌, ◌≡◌, refl, sym, subst, ap, ap₂, ◌∙◌, Bool, true, false, ◌&&◌, List, [],
  ◌∷◌, Bytes, Option, none, some, arith, ◌==◌, equal, if◌then◌else◌, All,
}
use native.Mathlib.Nat.{mod-eq_of_lt}
use cancept.Prelude.Dict.{Dict, lookup, insert, lookup-insert}
use cancept.Core.Float.{Float}
use cancept.Core.Dto.{DbcSignalDescription}
use cancept.SendingModel.State.{Mode, SendingModel, make_signal_key, definitions, max_can_id}
use cancept.SendingModel.Values.{clamped, cached_value, set_signal_value, set_signal_evaluator}
use cancept.SendingModel.Selection.{is_signal_selected}
use cancept.SendingModel.Send.{
  selected, chosen_messages, stored_value, seed_value, build_send_cache,
}
use cancept.SendingModel.Keys.{equal-make_signal_key}
use cancept.SendingModel.Cache.{HasSmallId, IdsDistinct}
use cancept.SendingModel.Cache.Change.{changed, cached_value-chosen_messages}

-- The two calls that keep the cache: `setSignalValue`, and `setSignalEvaluator` with an evaluator. A
-- value set by `setData`, a removed evaluator and a changed selection leave the cache as it was
-- built, so that they are not among them.
pub data Edit (D E : Type 0) : Type 0 where
  value : ℕ → Bytes → D → Edit D E
  evaluator : ℕ → Bytes → E → Edit D E

-- The identifier is a `uint16_t`.
unfoldable pub IsWord : {D E : Type 0} → Edit D E → Type 0
IsWord (value i name x) = i < 2 ^ 16
IsWord (evaluator i name e) = i < 2 ^ 16

none_before :
    {E : Type 0} (j k : Bytes) (e : E) (d : Dict E)
    → lookup j (insert k e d) ≡ none
    → lookup j d ≡ none
none_before j k e d h = ground (arith, lookup-insert j k e d)

value_if :
    {D : Type 0} (b : Bool) (c m : D) (o : Option D)
    → elim (if b then some c else o) [ some v ↦ v | none ↦ m ]
      ≡ (if b then c else elim o [ some v ↦ v | none ↦ m ])
value_if true c m o = refl
value_if false c m o = refl

pub test_words : (i j : ℕ) → j ≤ max_can_id → i < 2 ^ 16 → (j % 2 ^ 16 == i % 2 ^ 16) ≡ (j == i)
test_words i j small word =
    ap₂ (λ (a : ℕ) b. a == b) (mod-eq_of_lt {n = j} {m = 2 ^ 16} (omega arith))
      (mod-eq_of_lt {n = i} {m = 2 ^ 16} word)

module _ {F : Float} {E : Type 0} where
  open F use {Real, lt}

  -- The cache was built from the selection with some values, and where there is no evaluator the
  -- value is the one that is stored.
  unfoldable pub Coherent : SendingModel F E → Type 0
  unfolding definitions
  Coherent s =
      (w : ℕ → DbcSignalDescription Real → Real) × (s.message_cache
        ≡ chosen_messages (selected s) w (definitions s))
      × ((i : ℕ) (sig : DbcSignalDescription Real)
          → i ≤ max_can_id
          → lookup (make_signal_key i sig.signal_name) s.signal_evaluators ≡ none
          → w i sig ≡ stored_value s i sig)

  unfoldable pub edit : Edit Real E → SendingModel F E → SendingModel F E
  unfolding set_signal_value set_signal_evaluator
  edit (value i name x) s = set_signal_value i name x s
  edit (evaluator i name e) s = set_signal_evaluator i name (some e) s

  unfoldable pub edit_all : List (Edit Real E) → SendingModel F E → SendingModel F E
  unfolding edit
  edit_all [] s = s
  edit_all (e ∷ es) s = edit_all es (edit e s)

  -- The config has no two messages of the same identifier, and standard identifiers.
  unfoldable pub HasGoodIds : SendingModel F E → Type 0
  unfolding definitions IdsDistinct All
  HasGoodIds s = All HasSmallId (definitions s) × IdsDistinct (definitions s)

  seed-stored :
      (eval : E → Real) (s : SendingModel F E) (i : ℕ) (sig : DbcSignalDescription Real)
      → lookup (make_signal_key i sig.signal_name) s.signal_evaluators ≡ none
      → seed_value eval s i sig ≡ stored_value s i sig
  unfolding seed_value
  seed-stored eval s i sig k = rw (k, seed_value) refl

  pub build_send_cache-Coherent :
      (eval : E → Real) (s : SendingModel F E)
      → s.current_mode ≡ Mode.dbc
      → Coherent (build_send_cache eval s)
  unfolding build_send_cache Coherent definitions stored_value is_signal_selected
  build_send_cache-Coherent eval s e =
      (seed_value eval s, rw e refl, λ i sig h k. seed-stored eval s i sig k)

  pub stored_value-insert :
      (i j : ℕ) (name : Bytes) (c : Real) (sig : DbcSignalDescription Real) (s : SendingModel F E)
      → j ≤ max_can_id
      → i < 2 ^ 16
      → elim (lookup
          (make_signal_key j sig.signal_name)
          (insert (make_signal_key i name) c s.dynamic_signal_values)) [
            | some v ↦ v
            | none ↦ sig.minimum
          ]
        ≡ (if (j == i) && equal sig.signal_name name then c else stored_value s j sig)
  unfolding stored_value
  stored_value-insert i j name c sig s small word =
      rw
        (
          lookup-insert (make_signal_key j sig.signal_name) (make_signal_key i name) c
              s.dynamic_signal_values,
          equal-make_signal_key j i sig.signal_name name,
        )
        (value_if ((j % 2 ^ 16 == i % 2 ^ 16) && equal sig.signal_name name) c sig.minimum _
          ∙ ap (λ b. if b && equal sig.signal_name name then c else stored_value s j sig)
              (test_words i j small word))

  set_signal_value-Coherent :
      (i : ℕ) (name : Bytes) (x : Real) (s : SendingModel F E)
      → i < 2 ^ 16
      → HasGoodIds s
      → Coherent s
      → Coherent (set_signal_value i name x s)
  unfolding set_signal_value Coherent changed definitions stored_value HasGoodIds is_signal_selected
  set_signal_value-Coherent i name x s word good (w, built, stored) =
      let c = clamped F i name x (definitions s) in
      (
        changed i name c w,
        ap (cached_value F i name c) built
            ∙ cached_value-chosen_messages F (selected s) w i name c (definitions s) good.0 good.1,
        λ j sig small h.
            ap (λ y. if (j == i) && equal sig.signal_name name then c else y) (stored j sig small h)
            ∙ sym (stored_value-insert i j name c sig s small word),
      )

  set_signal_evaluator-Coherent :
      (i : ℕ) (name : Bytes) (e : E) (s : SendingModel F E)
      → Coherent s
      → Coherent (set_signal_evaluator i name (some e) s)
  unfolding set_signal_evaluator Coherent definitions stored_value is_signal_selected
  set_signal_evaluator-Coherent i name e s (w, built, stored) = (
    w,
    built,
    λ j sig small h. stored j sig small (
        none_before (make_signal_key j sig.signal_name) (make_signal_key i name) e
          s.signal_evaluators h),
  )

  edit-Coherent :
      (e : Edit Real E) (s : SendingModel F E)
      → IsWord e
      → HasGoodIds s
      → Coherent s
      → Coherent (edit e s)
  unfolding edit IsWord
  edit-Coherent (value i name x) s word good h = set_signal_value-Coherent i name x s word good h
  edit-Coherent (evaluator i name e) s word good h = set_signal_evaluator-Coherent i name e s h

  -- What the edits leave as it was.
  edit_stays :
      (e : Edit Real E) (s : SendingModel F E)
      → ((edit e s).current_mode ≡ s.current_mode) × (definitions (edit e s) ≡ definitions s)
  unfolding edit set_signal_value set_signal_evaluator definitions
  edit_stays (value i name x) s = (refl, refl)
  edit_stays (evaluator i name e) s = (refl, refl)

  edit-HasGoodIds : (e : Edit Real E) (s : SendingModel F E) → HasGoodIds s → HasGoodIds (edit e s)
  unfolding HasGoodIds
  edit-HasGoodIds e s h =
      subst (λ msgs. All HasSmallId msgs × IdsDistinct msgs) (sym (edit_stays e s).1) h

  pub edit_all-Coherent :
      (es : List (Edit Real E)) (s : SendingModel F E)
      → All IsWord es
      → HasGoodIds s
      → Coherent s
      → HasGoodIds (edit_all es s)
        × Coherent (edit_all es s)
        × ((edit_all es s).current_mode ≡ s.current_mode)
  unfolding edit_all All
  edit_all-Coherent [] s words good h = (good, h, refl)
  edit_all-Coherent (e ∷ es) s words good h =
      let rest =
        edit_all-Coherent es (edit e s) words.1 (edit-HasGoodIds e s good)
          (edit-Coherent e s words.0 good h) in
      (rest.0, rest.1, rest.2 ∙ (edit_stays e s).0)
