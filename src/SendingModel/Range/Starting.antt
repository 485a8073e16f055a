-- ===== src/SendingModel/Range/Starting.antt =====
-- `updateDbcConfig`: every signal starts at its minimum.
use cancept.Prelude.{
  ℕ, ◌≤◌, ◌≡◌, ◌≢◌, refl, ◌∙◌, false, List, [], ◌∷◌, Bytes, some, arith, equal, equal_refl, All,
  All-map, All-map₂,
}
use cancept.Prelude.Dict.{Dict, lookup, insert, lookup-insert}
use cancept.Core.Float.{Float}
use cancept.Core.Dto.{DbcSignalDescription, DbcMessageDescription, DbcConfig}
use cancept.SendingModel.State.{
  SendingModel, make_signal_key, definitions, max_can_id, start_signals, start_values,
  update_dbc_config,
}
use cancept.SendingModel.Send.{stored_value}
use cancept.SendingModel.Keys.{equal-make_signal_key}
use cancept.SendingModel.Cache.{HasSmallId, HasOtherId, IdsDistinct}
use cancept.SendingModel.Cache.Coherent.{test_words}
use cancept.SendingModel.Range.{IsWithin}
use cancept.SendingModel.Range.Stored.{
  HasOtherName, NamesDistinct, HasRange, HasGoodSignals, IsWellFormed, StoredWithin,
}

other_name :
    (i : ℕ) (n m : Bytes)
    → equal n m ≡ false
    → equal (make_signal_key i n) (make_signal_key i m) ≡ false
other_name i n m h = equal-make_signal_key i i n m ∙ rw h (ground arith)

module _ {D : Type 0} where
  other_key :
      (j k : Bytes) (v : D) (d : Dict D) → equal j k ≡ false → lookup j (insert k v d) ≡ lookup j d
  other_key j k v d h = lookup-insert j k v d ∙ rw h refl

  same_key : (k : Bytes) (v : D) (d : Dict D) → lookup k (insert k v d) ≡ some v
  same_key k v d = lookup-insert k k v d ∙ rw (equal_refl k) refl

  -- The signals whose key is another one.
  HasOtherKey : Bytes → ℕ → DbcSignalDescription D → Type 0
  HasOtherKey k i sig = equal k (make_signal_key i sig.signal_name) ≡ false

  start_signals-other :
      (k : Bytes) (i : ℕ) (sigs : List (DbcSignalDescription D)) (d : Dict D)
      → All (HasOtherKey k i) sigs
      → lookup k (start_signals i sigs d) ≡ lookup k d
  unfolding start_signals All HasOtherKey
  start_signals-other k i [] d h = refl
  start_signals-other k i (sig ∷ sigs) d h =
      start_signals-other k i sigs (insert (make_signal_key i sig.signal_name) sig.minimum d) h.1
      ∙ other_key k (make_signal_key i sig.signal_name) sig.minimum d h.0

  AtMinimum : Dict D → ℕ → DbcSignalDescription D → Type 0
  AtMinimum d i sig = lookup (make_signal_key i sig.signal_name) d ≡ some sig.minimum

  start_signals-AtMinimum :
      (i : ℕ) (sigs : List (DbcSignalDescription D)) (d : Dict D)
      → NamesDistinct sigs
      → All (AtMinimum (start_signals i sigs d) i) sigs
  unfolding start_signals All AtMinimum NamesDistinct HasOtherKey HasOtherName
  start_signals-AtMinimum i [] d h = tt
  start_signals-AtMinimum i (sig ∷ sigs) d h = (
    start_signals-other (make_signal_key i sig.signal_name) i sigs
          (insert (make_signal_key i sig.signal_name) sig.minimum d)
          (All-map sigs (λ other. other_name i sig.signal_name other.signal_name) h.0)
        ∙ same_key (make_signal_key i sig.signal_name) sig.minimum d,
    start_signals-AtMinimum i sigs (insert (make_signal_key i sig.signal_name) sig.minimum d) h.1,
  )

  other_message :
      (i j : ℕ) (n : Bytes) (sigs : List (DbcSignalDescription D))
      → i ≤ max_can_id
      → j ≤ max_can_id
      → j ≢ i
      → All (HasOtherKey (make_signal_key i n) j) sigs
  unfolding All HasOtherKey
  other_message i j n [] a b h = tt
  other_message i j n (sig ∷ sigs) a b h = (
    equal-make_signal_key i j n sig.signal_name
        ∙ rw (test_words j i a (omega arith)) (ground arith),
    other_message i j n sigs a b h,
  )

  start_values-other :
      (i : ℕ) (n : Bytes) (msgs : List (DbcMessageDescription D)) (d : Dict D)
      → i ≤ max_can_id
      → All HasSmallId msgs
      → All (HasOtherId i) msgs
      → lookup (make_signal_key i n) (start_values msgs d) ≡ lookup (make_signal_key i n) d
  unfolding start_values All HasOtherId
  start_values-other i n [] d a small h = refl
  start_values-other i n (msg ∷ msgs) d a small h =
      start_values-other i n msgs (start_signals msg.message_id msg.signal_descriptions d) a small.1
        h.1
      ∙ start_signals-other (make_signal_key i n) msg.message_id msg.signal_descriptions d
          (other_message i msg.message_id n msg.signal_descriptions a small.0 h.0)

  start_values-AtMinimum :
      (msgs : List (DbcMessageDescription D)) (d : Dict D)
      → All HasSmallId msgs
      → IdsDistinct msgs
      → All (λ msg. NamesDistinct msg.signal_descriptions) msgs
      → All
          (λ msg. All (AtMinimum (start_values msgs d) msg.message_id) msg.signal_descriptions)
          msgs
  unfolding start_values All AtMinimum IdsDistinct
  start_values-AtMinimum [] d small ids names = tt
  start_values-AtMinimum (msg ∷ msgs) d small ids names = (
    All-map msg.signal_descriptions
        (λ sig h.
          start_values-other msg.message_id sig.signal_name msgs _ small.0 small.1 ids.0 ∙ h)
        (start_signals-AtMinimum msg.message_id msg.signal_descriptions d names.0),
    start_values-AtMinimum msgs (start_signals msg.message_id msg.signal_descriptions d) small.1
        ids.1 names.1,
  )

module _ {F : Float} {E : Type 0} where
  open F use {Real, lt}

  at_minimum :
      (config : DbcConfig Real) (s : SendingModel F E) (i : ℕ) (sig : DbcSignalDescription Real)
      → ((y : Real) → lt y y ≡ false)
      → HasRange F sig
      → AtMinimum (start_values config.message_definitions []) i sig
      → IsWithin F sig (stored_value (update_dbc_config config s) i sig)
  unfolding AtMinimum HasRange stored_value update_dbc_config IsWithin
  at_minimum config s i sig irrefl range e = rw (e, stored_value) (irrefl sig.minimum, range)

  start-IsWithin :
      (config : DbcConfig Real) (s : SendingModel F E) (msg : DbcMessageDescription Real)
      → ((y : Real) → lt y y ≡ false)
      → HasGoodSignals F msg
      → All
          (AtMinimum (start_values config.message_definitions []) msg.message_id)
          msg.signal_descriptions
      → All
          (λ sig. IsWithin F sig (stored_value (update_dbc_config config s) msg.message_id sig))
          msg.signal_descriptions
  unfolding HasGoodSignals
  start-IsWithin config s msg irrefl good h =
      All-map₂ msg.signal_descriptions (λ sig. at_minimum config s msg.message_id sig irrefl) good.1
        h

  -- With a new config every signal has its minimum, which is in its range.
  pub update_dbc_config-StoredWithin :
      (config : DbcConfig Real) (s : SendingModel F E)
      → ((y : Real) → lt y y ≡ false)
      → IsWellFormed F config.message_definitions
      → StoredWithin (update_dbc_config config s)
  unfolding IsWellFormed StoredWithin update_dbc_config definitions HasGoodSignals
  update_dbc_config-StoredWithin config s irrefl good =
      All-map₂ config.message_definitions (λ msg. start-IsWithin config s msg irrefl) good.2
        (start_values-AtMinimum config.message_definitions [] good.0 good.1
          (All-map config.message_definitions (λ msg ok. ok.0) good.2))
