-- ===== src/SendingModel/Range/Stored.antt =====
-- The values that are stored stay in the ranges of their signals, for a config in which the
-- identifiers of messages and the names within a message are distinct and no range is empty.
use cancept.Prelude.{
  ℕ, ◌^◌, ◌<◌, ◌≡◌, ◌≢◌, refl, sym, ap, subst, ◌∙◌, false, ◌&&◌, List, [], ◌∷◌, Bytes, some, arith,
  ◌==◌, equal, equal_iff, equal_refl, if◌then◌else◌, All, All-map₂, Bool-cases, inl, inr,
}
use cancept.Prelude.Dict.{insert}
use cancept.Core.Float.{Float, std_clamp}
use cancept.Core.Dto.{DbcSignalDescription, DbcMessageDescription}
use cancept.SendingModel.State.{
  SendingModel, make_signal_key, definitions, find_message, find_signal,
}
use cancept.SendingModel.Values.{clamp_signal, clamp_message, clamped, set_signal_value}
use cancept.SendingModel.Send.{stored_value}
use cancept.SendingModel.Cache.{HasSmallId, HasOtherId, IdsDistinct, test_self}
use cancept.SendingModel.Cache.Coherent.{stored_value-insert}
use cancept.SendingModel.Range.{IsWithin}

other_test : (i j : ℕ) → i ≢ j → (j == i) ≡ false
other_test i j h = ground arith

module _ {D : Type 0} where
  unfoldable pub HasOtherName : Bytes → DbcSignalDescription D → Type 0
  HasOtherName name sig = equal name sig.signal_name ≡ false

  unfoldable pub NamesDistinct : List (DbcSignalDescription D) → Type 0
  unfolding All HasOtherName
  NamesDistinct [] = Unit
  NamesDistinct (sig ∷ sigs) = All (HasOtherName sig.signal_name) sigs × NamesDistinct sigs

  find_message-other :
      (msg other : DbcMessageDescription D) (msgs : List (DbcMessageDescription D))
      → HasOtherId other.message_id msg
      → find_message msg.message_id msgs ≡ some msg
      → find_message msg.message_id (other ∷ msgs) ≡ some msg
  unfolding find_message HasOtherId
  find_message-other msg other msgs h e = rw (other_test msg.message_id other.message_id h) e

  -- Each message is the one that is found by its identifier.
  pub find_message_each :
      (msgs : List (DbcMessageDescription D))
      → IdsDistinct msgs
      → All (λ msg. find_message msg.message_id msgs ≡ some msg) msgs
  unfolding IdsDistinct All find_message
  find_message_each [] h = tt
  find_message_each (msg ∷ msgs) h = (
    rw (test_self msg.message_id) refl,
    All-map₂ msgs (λ other. find_message-other other msg msgs) h.0 (find_message_each msgs h.1),
  )

  find_signal-other :
      (sig other : DbcSignalDescription D) (sigs : List (DbcSignalDescription D))
      → HasOtherName other.signal_name sig
      → find_signal sig.signal_name sigs ≡ some sig
      → find_signal sig.signal_name (other ∷ sigs) ≡ some sig
  unfolding find_signal HasOtherName
  find_signal-other sig other sigs h e = rw h e

  pub find_signal_each :
      (sigs : List (DbcSignalDescription D))
      → NamesDistinct sigs
      → All (λ sig. find_signal sig.signal_name sigs ≡ some sig) sigs
  unfolding NamesDistinct All find_signal
  find_signal_each [] h = tt
  find_signal_each (sig ∷ sigs) h = (
    rw (equal_refl sig.signal_name) refl,
    All-map₂ sigs (λ other. find_signal-other other sig sigs) h.0 (find_signal_each sigs h.1),
  )

module _ (F : Float) where
  open F use {Real, lt}

  -- The range is not empty, as far as it can be compared.
  unfoldable pub HasRange : DbcSignalDescription Real → Type 0
  HasRange sig = lt sig.maximum sig.minimum ≡ false

  unfoldable pub HasGoodSignals : DbcMessageDescription Real → Type 0
  unfolding NamesDistinct HasRange All
  HasGoodSignals msg = NamesDistinct msg.signal_descriptions × All HasRange msg.signal_descriptions

  unfoldable pub IsWellFormed : List (DbcMessageDescription Real) → Type 0
  unfolding HasGoodSignals All IdsDistinct
  IsWellFormed msgs = All HasSmallId msgs × IdsDistinct msgs × All HasGoodSignals msgs

  std_clamp-in_range :
      (sig : DbcSignalDescription Real) (v : Real)
      → ((x : Real) → lt x x ≡ false)
      → HasRange sig
      → IsWithin F sig (std_clamp F v sig.minimum sig.maximum)
  unfolding IsWithin HasRange
  std_clamp-in_range sig v irrefl h = elim (Bool-cases (lt v sig.minimum)) [
    | inl e ↦ rw e (irrefl sig.minimum, h)
    | inr e ↦ elim (Bool-cases (lt sig.maximum v)) [
      | inl k ↦ rw (e, k) (h, irrefl sig.maximum)
      | inr k ↦ rw (e, k) (e, k)
    ]
  ]

  -- The value fits the signals that have the key.
  unfoldable pub Suits : ℕ → Bytes → Real → DbcMessageDescription Real → Type 0
  unfolding IsWithin All
  Suits i name c msg =
      All (λ sig. msg.message_id ≡ i → sig.signal_name ≡ name → IsWithin F sig c)
        msg.signal_descriptions

  clamped-Suits :
      (i : ℕ) (name : Bytes) (x : Real) (msgs : List (DbcMessageDescription Real))
      (msg : DbcMessageDescription Real)
      → ((y : Real) → lt y y ≡ false)
      → find_message msg.message_id msgs ≡ some msg
      → HasGoodSignals msg
      → Suits i name (clamped F i name x msgs) msg
  unfolding Suits HasGoodSignals clamped clamp_message clamp_signal
  clamped-Suits i name x msgs msg irrefl found good =
      All-map₂ msg.signal_descriptions
        (λ sig (here : find_signal sig.signal_name msg.signal_descriptions ≡ some sig) range e k.
          subst (IsWithin F sig)
            (sym (
              ap (clamp_message F name x) (ap (λ j. find_message j msgs) (sym e) ∙ found)
              ∙ ap (clamp_signal F x)
                  (ap (λ n. find_signal n msg.signal_descriptions) (sym k) ∙ here)))
            (std_clamp-in_range sig x irrefl range))
        (find_signal_each msg.signal_descriptions good.0) good.1

module _ {F : Float} {E : Type 0} where
  open F use {Real, lt}

  -- Every stored value is in the range of its signal.
  unfoldable pub StoredWithin : SendingModel F E → Type 0
  unfolding definitions stored_value IsWithin All
  StoredWithin s =
      All
        (λ msg.
          All (λ sig. IsWithin F sig (stored_value s msg.message_id sig)) msg.signal_descriptions)
        (definitions s)

  set-IsWithin :
      (i : ℕ) (name : Bytes) (c : Real) (s : SendingModel F E) (msg : DbcMessageDescription Real)
      (sig : DbcSignalDescription Real)
      → (msg.message_id ≡ i → sig.signal_name ≡ name → IsWithin F sig c)
      → IsWithin F sig (stored_value s msg.message_id sig)
      → IsWithin F sig (
          if (msg.message_id == i) && equal sig.signal_name name
          then c
          else stored_value s msg.message_id sig)
  set-IsWithin i name c s msg sig suits within =
      elim (Bool-cases ((msg.message_id == i) && equal sig.signal_name name)) [
        | inl e ↦
            rw e (suits (ground (arith, e)) (ground (arith, e, equal_iff sig.signal_name name)))
        | inr e ↦ rw e within
      ]

  insert_message :
      (i : ℕ) (name : Bytes) (c : Real) (s : SendingModel F E) (msg : DbcMessageDescription Real)
      → i < 2 ^ 16
      → HasSmallId msg
      → Suits F i name c msg
      → All (λ sig. IsWithin F sig (stored_value s msg.message_id sig)) msg.signal_descriptions
      → All
          (λ sig. IsWithin F sig (
            stored_value
              (record s {
                dynamic_signal_values = insert (make_signal_key i name) c s.dynamic_signal_values;
              })
              msg.message_id
              sig))
          msg.signal_descriptions
  unfolding Suits stored_value
  insert_message i name c s msg word small suits within =
      All-map₂ msg.signal_descriptions
        (λ sig suit k.
          subst (IsWithin F sig)
            (sym (stored_value-insert i msg.message_id name c sig s small word))
            (set-IsWithin i name c s msg sig suit k))
        suits within

  -- A value that suits the signals of the key may be stored.
  pub insert-StoredWithin :
      (i : ℕ) (name : Bytes) (c : Real) (s : SendingModel F E)
      → i < 2 ^ 16
      → All HasSmallId (definitions s)
      → All (Suits F i name c) (definitions s)
      → StoredWithin s
      → StoredWithin (record s {
        dynamic_signal_values = insert (make_signal_key i name) c s.dynamic_signal_values;
      })
  unfolding StoredWithin definitions
  insert-StoredWithin i name c s word small suits within =
      All-map₂ {P = λ msg. HasSmallId msg × Suits F i name c msg} (definitions s)
        (λ msg ok. insert_message i name c s msg word ok.0 ok.1)
        (All-map₂ (definitions s) (λ msg a b. (a, b)) small suits) within

  -- `setSignalValue` keeps the stored values in their ranges.
  pub set_signal_value-StoredWithin :
      (i : ℕ) (name : Bytes) (x : Real) (s : SendingModel F E)
      → ((y : Real) → lt y y ≡ false)
      → i < 2 ^ 16
      → IsWellFormed F (definitions s)
      → StoredWithin s
      → StoredWithin (set_signal_value i name x s)
  unfolding IsWellFormed StoredWithin set_signal_value definitions stored_value
  set_signal_value-StoredWithin i name x s irrefl word good within =
      insert-StoredWithin i name (clamped F i name x (definitions s)) s word good.0
        (All-map₂ (definitions s)
          (λ msg found ok. clamped-Suits F i name x (definitions s) msg irrefl found ok)
          (find_message_each (definitions s) good.1) good.2)
        within
