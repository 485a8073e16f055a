-- ===== src/SendingModel/Range/Items.antt =====
-- `setData` on a signal: the value goes to the signal that the index stands for.
use cancept.Prelude.{
  ℕ, zero, suc, ◌-◌, ◌≤◌, ◌≡◌, refl, sym, ap, subst, ◌∙◌, Bool, false, List, [], ◌∷◌, Option, none,
  some, arith, get_elem?, All, All-map, All-map₂, Bool-cases, inl, inr,
}
use cancept.Prelude.Dict.{insert}
use cancept.Core.Float.{Float}
use cancept.Core.Dto.{DbcSignalDescription, DbcMessageDescription}
use cancept.SendingModel.State.{
  SendingModel, make_signal_key, definitions, max_can_id, find_message, find_signal,
}
use cancept.SendingModel.Tree.{
  paired, signal_in, ModelIndex, Given, message_at, signal_at, within, set_found, set_item,
}
use cancept.SendingModel.Cache.{HasSmallId}
use cancept.SendingModel.Range.{IsWithin}
use cancept.SendingModel.Range.Stored.{
  NamesDistinct, HasRange, HasGoodSignals, IsWellFormed, StoredWithin, Suits, insert-StoredWithin,
  find_message_each, find_signal_each,
}

some-injective : {A : Type 0} (x y : A) → some x ≡ some y → x ≡ y
some-injective x y e = cc

All-get :
    {A : Type 0} (P : A → Type 0) (xs : List A) (i : ℕ) (x : A)
    → get_elem? xs i ≡ some x
    → All P xs
    → P x
unfolding All
All-get P [] i x e h = cc
All-get P (y ∷ ys) zero x e h = subst P (some-injective y x e) h.0
All-get P (y ∷ ys) (suc i) x e h = All-get P ys i x e h.1

-- Two that are found by the same key are the same.
found_same :
    {A B : Type 0} (find : A → Option B) (i j : A) (x y : B)
    → find i ≡ some x
    → find j ≡ some y
    → j ≡ i
    → x ≡ y
found_same find i j x y e k h = some-injective x y (sym e ∙ sym (ap find h) ∙ k)

module _ (F : Float) where
  open F use {Real, lt}

  within-IsWithin :
      (sig : DbcSignalDescription Real) (v : Real)
      → ((x : Real) → lt x x ≡ false)
      → HasRange F sig
      → IsWithin F sig (within F v sig)
  unfolding IsWithin HasRange within
  within-IsWithin sig v irrefl h = elim (Bool-cases (lt v sig.minimum)) [
    | inl e ↦ rw (e, h) (irrefl sig.minimum, h)
    | inr e ↦ elim (Bool-cases (lt sig.maximum v)) [
      | inl k ↦ rw (e, k) (h, irrefl sig.maximum)
      | inr k ↦ rw (e, k) (e, k)
    ]
  ]

  -- A value that is in the range of one signal suits the key of that signal.
  one-Suits :
      (msgs : List (DbcMessageDescription Real)) (msg other : DbcMessageDescription Real)
      (sig : DbcSignalDescription Real) (c : Real)
      → find_message msg.message_id msgs ≡ some msg
      → find_signal sig.signal_name msg.signal_descriptions ≡ some sig
      → IsWithin F sig c
      → find_message other.message_id msgs ≡ some other
      → HasGoodSignals F other
      → Suits F msg.message_id sig.signal_name c other
  unfolding Suits HasGoodSignals
  one-Suits msgs msg other sig c found_msg found_sig within_sig found_other good =
      All-map other.signal_descriptions
        (λ σ (found : find_signal σ.signal_name other.signal_descriptions ≡ some σ) e k.
          let same : msg ≡ other =
            found_same (λ i. find_message i msgs) msg.message_id other.message_id msg other
              found_msg found_other e in
          subst (λ τ. IsWithin F τ c)
            (found_same (λ n. find_signal n other.signal_descriptions) sig.signal_name σ.signal_name
              sig σ
              (subst (λ m. find_signal sig.signal_name m.signal_descriptions ≡ some sig) same
                found_sig)
              found k)
            within_sig)
        (find_signal_each other.signal_descriptions good.0)

  found_within :
      (msg : DbcMessageDescription Real) (row : ℕ) (sig : DbcSignalDescription Real) (x : Real)
      → ((y : Real) → lt y y ≡ false)
      → HasGoodSignals F msg
      → get_elem? msg.signal_descriptions row ≡ some sig
      → IsWithin F sig (within F x sig)
  unfolding HasGoodSignals
  found_within msg row sig x irrefl good e =
      within-IsWithin sig x irrefl (All-get (HasRange F) msg.signal_descriptions row sig e good.1)

found_signal :
    {D : Type 0} (msg : DbcMessageDescription D) (row : ℕ) (sig : DbcSignalDescription D)
    → NamesDistinct msg.signal_descriptions
    → get_elem? msg.signal_descriptions row ≡ some sig
    → find_signal sig.signal_name msg.signal_descriptions ≡ some sig
found_signal msg row sig distinct e =
    All-get (λ σ. find_signal σ.signal_name msg.signal_descriptions ≡ some σ)
      msg.signal_descriptions row sig e (find_signal_each msg.signal_descriptions distinct)

paired_found :
    {A B : Type 0} (a : A) (o : Option B) (found : A × B)
    → paired a o ≡ some found
    → (o ≡ some found.1) × (a ≡ found.0)
unfolding paired
paired_found a none found e = cc
paired_found a (some b) found e =
    let same = some-injective (a, b) found e in (ap (λ p. some p.1) same, ap (λ p. p.0) same)

module _ {D : Type 0} where
  signal_in_found :
      (o : Option (DbcMessageDescription D)) (row : ℕ)
      (found : DbcMessageDescription D × DbcSignalDescription D)
      → signal_in o row ≡ some found
      → (o ≡ some found.0) × (get_elem? found.0.signal_descriptions row ≡ some found.1)
  unfolding signal_in
  signal_in_found none row found e = cc
  signal_in_found (some msg) row found e =
      let parts = paired_found msg (get_elem? msg.signal_descriptions row) found e in
      (
        ap some parts.1,
        subst (λ m. get_elem? m.signal_descriptions row ≡ some found.1) parts.1 parts.0,
      )

module _ {F : Float} {E : Type 0} where
  open F use {Real, lt}

  found-StoredWithin :
      (i : ModelIndex) (found : DbcMessageDescription Real × DbcSignalDescription Real) (x : Real)
      (s : SendingModel F E)
      → ((y : Real) → lt y y ≡ false)
      → IsWellFormed F (definitions s)
      → signal_at s i ≡ some found
      → StoredWithin s
      → StoredWithin (record s {
        dynamic_signal_values =
            insert
              (make_signal_key found.0.message_id found.1.signal_name)
              (within F x found.1)
              s.dynamic_signal_values;
      })
  unfolding signal_at message_at IsWellFormed HasGoodSignals
  found-StoredWithin i found x s irrefl good e stored =
      let msgs = definitions s in
      let row = i.internal_pointer - 1 in
      let at = signal_in_found (get_elem? msgs row) i.row found e in
      let small : found.0.message_id ≤ max_can_id =
        All-get HasSmallId msgs row found.0 at.0 good.0 in
      let fine : HasGoodSignals F found.0 =
        All-get (HasGoodSignals F) msgs row found.0 at.0 good.2 in
      insert-StoredWithin found.0.message_id found.1.signal_name (within F x found.1) s
        (omega (arith, small)) good.0
        (All-map₂ msgs
          (λ other.
            one-Suits F msgs found.0 other found.1 (within F x found.1)
              (All-get (λ msg. find_message msg.message_id msgs ≡ some msg) msgs row found.0 at.0
                (find_message_each msgs good.1))
              (found_signal found.0 i.row found.1 fine.0 at.1)
              (found_within F found.0 i.row found.1 x irrefl fine at.1))
          (find_message_each msgs good.1) good.2)
        stored

  set_found-StoredWithin :
      (i : ModelIndex) (o : Option (DbcMessageDescription Real × DbcSignalDescription Real))
      (given : Given Real) (s : SendingModel F E)
      → ((y : Real) → lt y y ≡ false)
      → IsWellFormed F (definitions s)
      → signal_at s i ≡ o
      → StoredWithin s
      → StoredWithin (set_found s o given).1
  unfolding set_found
  set_found-StoredWithin i none given s irrefl good e stored = stored
  set_found-StoredWithin i (some found) given s irrefl good e stored =
      found-StoredWithin i found given.to_double s irrefl good e stored

  by_pointer :
      (p : ℕ) (r : Bool × SendingModel F E) (s : SendingModel F E)
      → StoredWithin s
      → StoredWithin r.1
      → StoredWithin (elim p as (λ _. Bool × SendingModel F E) [ zero ↦ (false, s) | suc q ↦ r ]).1
  by_pointer zero r s h k = h
  by_pointer (suc q) r s h k = k

  pub set_item-StoredWithin :
      (i : ModelIndex) (given : Given Real) (s : SendingModel F E)
      → ((y : Real) → lt y y ≡ false)
      → IsWellFormed F (definitions s)
      → StoredWithin s
      → StoredWithin (set_item s i given).1
  unfolding set_item
  set_item-StoredWithin i given s irrefl good stored =
      by_pointer (i.internal_pointer) (set_found s (signal_at s i) given) s stored
        (set_found-StoredWithin i (signal_at s i) given s irrefl good refl stored)
