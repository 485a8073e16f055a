-- ===== src/SendingModel/Cache/Change.antt =====
-- Setting a value in a cache is setting it among the values that the cache was built from.
use cancept.Prelude.{
  ℕ, ◌≤◌, ◌≡◌, ◌≢◌, inl, inr, refl, sym, subst, ap, ap₂, ◌∙◌, Bool, true, false, ◌&&◌, List, [],
  ◌∷◌, ◌++◌, Bytes, arith, ◌==◌, equal, if◌then◌else◌, All,
}
use cancept.Core.Float.{Float}
use cancept.Core.Dto.{DbcCanSignal, DbcCanMessage, DbcSignalDescription, DbcMessageDescription}
use cancept.SendingModel.State.{max_can_id}
use cancept.SendingModel.Values.{cached_signals, cached_value}
use cancept.SendingModel.Send.{push_if, as_message, chosen_signals, chosen_message, chosen_messages}
use cancept.SendingModel.Cache.{
  HasSmallId, HasOtherId, IdsDistinct, masked, test_self, decide, valued, chosen_signals-congr,
  chosen_messages-congr,
}

-- The values after one of them is set.
unfoldable pub changed :
    {D : Type 0} → ℕ → Bytes → D → (ℕ → DbcSignalDescription D → D) → ℕ → DbcSignalDescription D → D
changed i name c w j sig = if (j == i) && equal sig.signal_name name then c else w j sig

module _ (F : Float) (chosen : ℕ → Bytes → Bool)
    (w : ℕ → DbcSignalDescription (Float.Real F) → Float.Real F) (i : ℕ) (name : Bytes)
    (c : Float.Real F) where
  open F use {Real}

  changed_other :
      (j : ℕ) (sig : DbcSignalDescription Real) → j ≢ i → changed i name c w j sig ≡ w j sig
  unfolding changed
  changed_other j sig h = ground arith

  unchanged :
      (j : ℕ) (sigs : List (DbcSignalDescription Real))
      → j ≢ i
      → All (λ sig. w j sig ≡ changed i name c w j sig) sigs
  unfolding All
  unchanged j [] h = tt
  unchanged j (sig ∷ sigs) h = (sym (changed_other j sig h), unchanged j sigs h)

  unchanged_messages :
      (msgs : List (DbcMessageDescription Real))
      → All (HasOtherId i) msgs
      → All
          (λ msg.
            All
              (λ sig. w msg.message_id sig ≡ changed i name c w msg.message_id sig)
              msg.signal_descriptions)
          msgs
  unfolding All HasOtherId
  unchanged_messages [] h = tt
  unchanged_messages (msg ∷ msgs) h =
      (unchanged msg.message_id msg.signal_descriptions h.0, unchanged_messages msgs h.1)

  push_if-cached_signals :
      (b : Bool) (sig : DbcCanSignal Real) (sigs : List (DbcCanSignal Real))
      → cached_signals F name c (push_if b sig sigs)
        ≡ push_if b
            (if equal sig.name name then record sig { value = c } else sig)
            (cached_signals F name c sigs)
  unfolding cached_signals push_if
  push_if-cached_signals true sig sigs = refl
  push_if-cached_signals false sig sigs = refl

  changed_self :
      (sig : DbcSignalDescription Real)
      → changed i name c w i sig ≡ (if equal sig.signal_name name then c else w i sig)
  unfolding changed
  changed_self sig = ground arith

  value_if :
      (b : Bool) (n : Bytes) (x y : Real)
      → (if b then valued n x else valued n y) ≡ valued n (if b then x else y)
  value_if true n x y = refl
  value_if false n x y = refl

  cached_signals-chosen_signals :
      (sigs : List (DbcSignalDescription Real))
      → cached_signals F name c (chosen_signals chosen w i sigs)
        ≡ chosen_signals chosen (changed i name c w) i sigs
  unfolding cached_signals chosen_signals changed
  cached_signals-chosen_signals [] = refl
  cached_signals-chosen_signals (sig ∷ sigs) =
      push_if-cached_signals (chosen i sig.signal_name) (valued sig.signal_name (w i sig))
        (chosen_signals chosen w i sigs)
      ∙ ap₂ (λ a b. push_if (chosen i sig.signal_name) a b)
          (value_if (equal sig.signal_name name) sig.signal_name c (w i sig)
            ∙ ap (valued sig.signal_name) (sym (changed_self sig)))
          (cached_signals-chosen_signals sigs)

  cached_value-other :
      (j : ℕ) (sigs : List (DbcCanSignal Real)) (rest : List (DbcCanMessage Real))
      → j ≤ max_can_id
      → j ≢ i
      → cached_value F i name c (as_message j sigs ++ rest)
        ≡ as_message j sigs ++ cached_value F i name c rest
  unfolding cached_value as_message
  cached_value-other j [] rest small h = refl
  cached_value-other j (sig ∷ sigs) rest small h = rw (masked j small) (ground arith)

  cached_value_self :
      (sigs : List (DbcCanSignal Real)) (rest : List (DbcCanMessage Real))
      → i ≤ max_can_id
      → cached_value F i name c rest ≡ rest
      → cached_value F i name c (as_message i sigs ++ rest)
        ≡ as_message i (cached_signals F name c sigs) ++ rest
  unfolding cached_value as_message cached_signals
  cached_value_self [] rest small h = h
  cached_value_self (sig ∷ sigs) rest small h = rw (masked i small, test_self i) refl

  cached_value-others :
      (msgs : List (DbcMessageDescription Real))
      → All HasSmallId msgs
      → All (HasOtherId i) msgs
      → cached_value F i name c (chosen_messages chosen w msgs) ≡ chosen_messages chosen w msgs
  unfolding chosen_messages chosen_message cached_value All HasOtherId
  cached_value-others [] small h = refl
  cached_value-others (msg ∷ msgs) small h =
      let sigs = chosen_signals chosen w msg.message_id msg.signal_descriptions in
      cached_value-other msg.message_id sigs (chosen_messages chosen w msgs) small.0 h.0
      ∙ ap (λ rest. as_message msg.message_id sigs ++ rest) (cached_value-others msgs small.1 h.1)

  changed-others :
      (msgs : List (DbcMessageDescription Real))
      → All (HasOtherId i) msgs
      → chosen_messages chosen w msgs ≡ chosen_messages chosen (changed i name c w) msgs
  changed-others msgs h =
      chosen_messages-congr chosen w (changed i name c w) msgs (unchanged_messages msgs h)

  here :
      (msg : DbcMessageDescription Real) (msgs : List (DbcMessageDescription Real))
      → All HasSmallId (msg ∷ msgs)
      → All (HasOtherId i) msgs
      → msg.message_id ≡ i
      → cached_value F i name c (chosen_messages chosen w (msg ∷ msgs))
        ≡ chosen_messages chosen (changed i name c w) (msg ∷ msgs)
  unfolding chosen_messages chosen_message All
  here msg msgs small h e = rw e (
      cached_value_self (chosen_signals chosen w i msg.signal_descriptions)
        (chosen_messages chosen w msgs) (rw e at small.0) (cached_value-others msgs small.1 h)
      ∙ ap₂ (λ a rest. as_message i a ++ rest)
          (cached_signals-chosen_signals msg.signal_descriptions) (changed-others msgs h))

  -- The change of the cache is that of the values it was built from.
  pub cached_value-chosen_messages :
      (msgs : List (DbcMessageDescription Real))
      → All HasSmallId msgs
      → IdsDistinct msgs
      → cached_value F i name c (chosen_messages chosen w msgs)
        ≡ chosen_messages chosen (changed i name c w) msgs
  unfolding chosen_messages chosen_message cached_value All IdsDistinct
  cached_value-chosen_messages [] small d = refl
  cached_value-chosen_messages (msg ∷ msgs) small d = elim (decide msg.message_id i) [
    | inl e ↦ here msg msgs small (subst (λ (j : ℕ). All (HasOtherId j) msgs) e d.0) e
    | inr h ↦
        cached_value-other msg.message_id _ (chosen_messages chosen w msgs) small.0 h
        ∙ ap₂ (λ a rest. as_message msg.message_id a ++ rest)
            (chosen_signals-congr chosen w (changed i name c w) msg.message_id
              msg.signal_descriptions (unchanged msg.message_id msg.signal_descriptions h))
            (cached_value-chosen_messages msgs small.1 d.1)
  ]
