-- ===== src/SendingModel/Cache/Refresh.antt =====
-- Asking the evaluators for a cache is asking them for the values that it was built from.
use cancept.Prelude.{
  ℕ, ◌≤◌, ◌≡◌, refl, ap, ap₂, ◌∙◌, Bool, true, false, List, [], ◌∷◌, ◌++◌, Bytes, Option, none,
  some, All, bit_and,
}
use cancept.Prelude.Int.{pos}
use cancept.Prelude.Dict.{Dict, lookup}
use cancept.Core.Dto.{DbcCanSignal, DbcCanMessage, DbcSignalDescription, DbcMessageDescription}
use cancept.SendingModel.State.{make_signal_key, max_can_id}
use cancept.SendingModel.Send.{
  push_if, as_message, chosen_signals, chosen_message, chosen_messages, refresh_signals,
  refresh_messages,
}
use cancept.SendingModel.Cache.{HasSmallId, masked, valued}

-- The values after the evaluators are asked.
unfoldable pub refreshed :
    {D E : Type 0}
    → (E → D)
    → Dict E
    → (ℕ → DbcSignalDescription D → D)
    → ℕ
    → DbcSignalDescription D
    → D
refreshed eval evaluators w i sig = elim (lookup (make_signal_key i sig.signal_name) evaluators) [
  | none ↦ w i sig
  | some e ↦ eval e
]

module _ {D E : Type 0} (eval : E → D) (evaluators : Dict E) (chosen : ℕ → Bytes → Bool)
    (w : ℕ → DbcSignalDescription D → D) where
  valued_by :
      (n : Bytes) (x : D) (o : Option E)
      → elim o [ none ↦ valued n x | some e ↦ record (valued n x) { value = eval e } ]
        ≡ valued n (elim o [ none ↦ x | some e ↦ eval e ])
  valued_by n x none = refl
  valued_by n x (some e) = refl

  push_if-refresh_signals :
      (i : ℕ) (b : Bool) (n : Bytes) (x y : D) (sigs : List (DbcCanSignal D))
      → elim (lookup (make_signal_key i n) evaluators) [ none ↦ x | some e ↦ eval e ] ≡ y
      → refresh_signals eval evaluators i (push_if b (valued n x) sigs)
        ≡ push_if b (valued n y) (refresh_signals eval evaluators i sigs)
  unfolding push_if refresh_signals
  push_if-refresh_signals i true n x y sigs e =
      ap (λ sig. sig ∷ refresh_signals eval evaluators i sigs)
        (valued_by n x (lookup (make_signal_key i n) evaluators) ∙ ap (valued n) e)
  push_if-refresh_signals i false n x y sigs e = refl

  refresh_signals-chosen_signals :
      (i : ℕ) (sigs : List (DbcSignalDescription D))
      → refresh_signals eval evaluators i (chosen_signals chosen w i sigs)
        ≡ chosen_signals chosen (refreshed eval evaluators w) i sigs
  unfolding refresh_signals chosen_signals refreshed
  refresh_signals-chosen_signals i [] = refl
  refresh_signals-chosen_signals i (sig ∷ sigs) =
      push_if-refresh_signals i (chosen i sig.signal_name) sig.signal_name (w i sig)
        (refreshed eval evaluators w i sig) (chosen_signals chosen w i sigs) refl
      ∙ ap
          (push_if (chosen i sig.signal_name)
            (valued sig.signal_name (refreshed eval evaluators w i sig)))
          (refresh_signals-chosen_signals i sigs)

  refresh_messages-as_message :
      (i : ℕ) (sigs : List (DbcCanSignal D)) (rest : List (DbcCanMessage D))
      → i ≤ max_can_id
      → refresh_messages eval evaluators (as_message i sigs ++ rest)
        ≡ as_message i (refresh_signals eval evaluators i sigs)
          ++ refresh_messages eval evaluators rest
  unfolding refresh_messages as_message refresh_signals
  refresh_messages-as_message i [] rest small = refl
  refresh_messages-as_message i (sig ∷ sigs) rest small =
      ap {B = List (DbcCanMessage D)}
        (λ j.
          record {
            receive_time = pos 0;
            signal_values = refresh_signals eval evaluators j (sig ∷ sigs);
            message_id = bit_and i max_can_id;
          }
          ∷ refresh_messages eval evaluators rest)
        (masked i small)

  -- To refresh the cache is to refresh the values it was built from.
  pub refresh_messages-chosen_messages :
      (msgs : List (DbcMessageDescription D))
      → All HasSmallId msgs
      → refresh_messages eval evaluators (chosen_messages chosen w msgs)
        ≡ chosen_messages chosen (refreshed eval evaluators w) msgs
  unfolding chosen_messages chosen_message refresh_messages All
  refresh_messages-chosen_messages [] small = refl
  refresh_messages-chosen_messages (msg ∷ msgs) small =
      refresh_messages-as_message msg.message_id _ (chosen_messages chosen w msgs) small.0
      ∙ ap₂ (λ a rest. as_message msg.message_id a ++ rest)
          (refresh_signals-chosen_signals msg.message_id msg.signal_descriptions)
          (refresh_messages-chosen_messages msgs small.1)
