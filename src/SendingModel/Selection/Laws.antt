-- ===== src/SendingModel/Selection/Laws.antt =====
-- Selecting a message selects its signals, and no others.
use cancept.Prelude.{
  ℕ, ◌%◌, ◌^◌, ◌≡◌, refl, ◌∙◌, Bool, true, false, ◌&&◌, ◌||◌, List, [], ◌∷◌, Bytes, Option, none,
  some, arith, ◌==◌, equal, if◌then◌else◌,
}
use cancept.Prelude.Dict.{contains-insert_key, contains-erase_key}
use cancept.Core.Float.{Float}
use cancept.Core.Dto.{DbcSignalDescription, DbcMessageDescription}
use cancept.SendingModel.State.{SendingModel, make_signal_key, definitions, find_message}
use cancept.SendingModel.Selection.{
  set_signal_selected, is_signal_selected, select_signals, select_message, set_message_selected,
}
use cancept.SendingModel.Keys.{equal-make_signal_key}

module _ {D : Type 0} where
  unfoldable pub has_signal : Bytes → List (DbcSignalDescription D) → Bool
  has_signal name [] = false
  has_signal name (sig ∷ sigs) = equal name sig.signal_name || has_signal name sigs

  unfoldable pub message_has : Bytes → Option (DbcMessageDescription D) → Bool
  unfolding has_signal
  message_has name none = false
  message_has name (some msg) = has_signal name msg.signal_descriptions

  unfoldable pub is_nonempty : List (DbcSignalDescription D) → Bool
  is_nonempty [] = false
  is_nonempty (sig ∷ sigs) = true

  -- There is a message and it has a signal.
  unfoldable pub has_some : Option (DbcMessageDescription D) → Bool
  unfolding is_nonempty
  has_some none = false
  has_some (some msg) = is_nonempty msg.signal_descriptions

module _ {F : Float} {E : Type 0} where
  open F use {Real}

  is_signal_selected-set_signal_selected :
      (i j : ℕ) (n m : Bytes) (b : Bool) (s : SendingModel F E)
      → is_signal_selected j n (set_signal_selected i m b s)
        ≡ (if (j % 2 ^ 16 == i % 2 ^ 16) && equal n m then b else is_signal_selected j n s)
  unfolding is_signal_selected set_signal_selected
  is_signal_selected-set_signal_selected i j n m true s =
      contains-insert_key (make_signal_key j n) (make_signal_key i m) s.selected_signal_names
      ∙ rw (equal-make_signal_key j i n m) (ground arith)
  is_signal_selected-set_signal_selected i j n m false s =
      contains-erase_key (make_signal_key j n) (make_signal_key i m) s.selected_signal_names
      ∙ rw (equal-make_signal_key j i n m) refl

  is_signal_selected-select_signals :
      (i j : ℕ) (n : Bytes) (b : Bool) (sigs : List (DbcSignalDescription Real))
      (s : SendingModel F E)
      → is_signal_selected j n (select_signals i b sigs s)
        ≡ (if (j % 2 ^ 16 == i % 2 ^ 16) && has_signal n sigs then b else is_signal_selected j n s)
  unfolding select_signals has_signal
  is_signal_selected-select_signals i j n b [] s = ground arith
  is_signal_selected-select_signals i j n b (sig ∷ sigs) s =
      is_signal_selected-select_signals i j n b sigs (set_signal_selected i sig.signal_name b s)
      ∙ rw (is_signal_selected-set_signal_selected i j n sig.signal_name b s) (ground arith)

  is_signal_selected-select_message :
      (i j : ℕ) (n : Bytes) (b : Bool) (o : Option (DbcMessageDescription Real))
      (s : SendingModel F E)
      → is_signal_selected j n (select_message i b o s)
        ≡ (if (j % 2 ^ 16 == i % 2 ^ 16) && message_has n o then b else is_signal_selected j n s)
  unfolding select_message message_has
  is_signal_selected-select_message i j n b none s = ground arith
  is_signal_selected-select_message i j n b (some msg) s =
      is_signal_selected-select_signals i j n b msg.signal_descriptions s

  -- Selecting or deselecting a message does so for the signals of the first definition that has the
  -- identifier, if there is one, and changes no other signal. Identifiers are told apart by their
  -- lower 16 bits.
  pub is_signal_selected-set_message_selected :
      (i j : ℕ) (n : Bytes) (b : Bool) (s : SendingModel F E)
      → is_signal_selected j n (set_message_selected i b s) ≡ (
          if (j % 2 ^ 16 == i % 2 ^ 16) && message_has n (find_message i (definitions s))
          then b
          else is_signal_selected j n s)
  unfolding set_message_selected
  is_signal_selected-set_message_selected i j n b s =
      is_signal_selected-select_message i j n b (find_message i (definitions s)) s
