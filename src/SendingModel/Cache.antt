-- ===== src/SendingModel/Cache.antt =====
-- The messages of a cache by the values that they are built from.
use cancept.Prelude.{
  ℕ, suc, ◌%◌, ◌^◌, ◌≤◌, ◌<◌, ◌≡◌, ◌≢◌, ◌⊎◌, inl, inr, refl, sym, subst, ap, ap₂, ◌∙◌, Bool, true,
  false, ◌&&◌, List, [], ◌∷◌, ◌++◌, Bytes, Option, none, some, Option-cases, Bool-cases, arith,
  ◌==◌, equal, if◌then◌else◌, All, bit_and, bit_and-ones,
}
use native.Mathlib.Nat.{mod-eq_of_lt}
use cancept.Prelude.Int.{pos}
use cancept.Prelude.Dict.{Dict, lookup}
use cancept.Core.Float.{Float}
use cancept.Core.Dto.{DbcCanSignal, DbcCanMessage, DbcSignalDescription, DbcMessageDescription}
use cancept.SendingModel.State.{make_signal_key, max_can_id}
use cancept.SendingModel.Values.{cached_signals, cached_value}
use cancept.SendingModel.Send.{
  push_if, as_message, chosen_signals, chosen_message, chosen_messages, refresh_signals,
  refresh_messages,
}
pub mod Change
pub mod Refresh
pub mod Coherent
pub mod Sending

module _ {D : Type 0} where
  -- The identifier is one of a standard frame.
  abbrev pub HasSmallId : DbcMessageDescription D → Type 0
  HasSmallId msg = msg.message_id ≤ max_can_id

  unfoldable pub HasOtherId : ℕ → DbcMessageDescription D → Type 0
  HasOtherId i msg = msg.message_id ≢ i

  -- No two messages have the same identifier.
  unfoldable pub IdsDistinct : List (DbcMessageDescription D) → Type 0
  unfolding All HasOtherId
  IdsDistinct [] = Unit
  IdsDistinct (msg ∷ msgs) = All (HasOtherId msg.message_id) msgs × IdsDistinct msgs

abbrev pub valued : {D : Type 0} → Bytes → D → DbcCanSignal D
valued n v = record { name = n; value = v }

pub test_self : (i : ℕ) → (i == i) ≡ true
test_self i = ground arith

pub decide : (a b : ℕ) → (a ≡ b) ⊎ (a ≢ b)
decide a b = ground arith

pub masked : (i : ℕ) → i ≤ max_can_id → bit_and i max_can_id ≡ i
masked i h = bit_and-ones 11 i ∙ mod-eq_of_lt (omega arith)

module _ {D : Type 0} (chosen : ℕ → Bytes → Bool) (v w : ℕ → DbcSignalDescription D → D) where
  pub chosen_signals-congr :
      (i : ℕ) (sigs : List (DbcSignalDescription D))
      → All (λ sig. v i sig ≡ w i sig) sigs
      → chosen_signals chosen v i sigs ≡ chosen_signals chosen w i sigs
  unfolding chosen_signals All
  chosen_signals-congr i [] h = refl
  chosen_signals-congr i (sig ∷ sigs) h =
      ap₂ (λ a b. push_if (chosen i sig.signal_name) (valued sig.signal_name a) b) h.0
        (chosen_signals-congr i sigs h.1)

  -- Values that agree on the signals of the messages give the same messages.
  pub chosen_messages-congr :
      (msgs : List (DbcMessageDescription D))
      → All
          (λ msg. All (λ sig. v msg.message_id sig ≡ w msg.message_id sig) msg.signal_descriptions)
          msgs
      → chosen_messages chosen v msgs ≡ chosen_messages chosen w msgs
  unfolding chosen_messages chosen_message All
  chosen_messages-congr [] h = refl
  chosen_messages-congr (msg ∷ msgs) h =
      ap₂ (λ a b. as_message msg.message_id a ++ b)
        (chosen_signals-congr msg.message_id msg.signal_descriptions h.0)
        (chosen_messages-congr msgs h.1)
