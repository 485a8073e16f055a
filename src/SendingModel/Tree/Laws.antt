-- ===== src/SendingModel/Tree/Laws.antt =====
-- The item model: where its indices lie, and what is set is what is shown.
use cancept.Prelude.{
  ℕ, zero, suc, ◌≡◌, refl, sym, subst, ap, ◌∙◌, Bool, true, false, ◌&&◌, Option, none, some, Bytes,
  ltb, equal_refl, if◌then◌else◌, arith, Bool-cases, inl, inr,
}
use cancept.Prelude.Dict.{Dict, lookup, insert, lookup-insert}
use cancept.Core.Float.{Float}
use cancept.Core.Dto.{DbcSignalDescription, DbcMessageDescription}
use cancept.SendingModel.State.{SendingModel, make_signal_key, definitions}
use cancept.SendingModel.Tree.{
  ModelIndex, Role, Given, Variant, message_at, rows_below, index_under, row_count, column_count,
  index_within, index, parent_of, signal_at, message_data, signal_data, found_data, data_at,
  item_data, within, set_found, set_item, set_data,
}

module _ (F : Float) where
  open F use {Real, lt}

  -- The value between two bounds that stands for a value: the lower bound for one below it, the
  -- upper bound for one above it, and any other value itself. Between bounds in the wrong order it
  -- is the upper one for every value that is below the lower one.
  unfoldable cut : Real → Real → Real → Real
  cut lo hi v = if lt v lo then (if lt hi lo then hi else lo) else if lt hi v then hi else v

  within-cut :
      (v : Real) (sig : DbcSignalDescription Real) → within F v sig ≡ cut sig.minimum sig.maximum v
  unfolding within cut
  within-cut v sig = elim (Bool-cases (lt v sig.minimum)) [ inl e ↦ rw e refl | inr e ↦ rw e refl ]

-- The pointer by which an index names its parent.
unfoldable pub pointer_of : Option ModelIndex → ℕ
pointer_of none = 0
pointer_of (some parent) = suc parent.row

-- A message as a parent: its row, in the first column.
unfoldable pub top_index : Option ModelIndex → Option ModelIndex
top_index none = none
top_index (some i) = some (record { row = i.row; column = 0; internal_pointer = 0 })

under_rows :
    {D : Type 0} (p : ℕ) (o : Option (DbcMessageDescription D)) (row column parent_row : ℕ)
    → (if ltb row (rows_below p o) && ltb column 1
        then index_under o row column parent_row
        else none)
      ≡ (if ltb row (rows_below p o) && ltb column 1
          then some (record { row = row; column = column; internal_pointer = suc parent_row })
          else none)
unfolding rows_below index_under
under_rows (suc p) o row column parent_row = ground arith
under_rows zero none row column parent_row = ground arith
under_rows zero (some msg) row column parent_row = ground arith

chosen_index : (b : Bool) (i j : ModelIndex) → (if b then some j else none) ≡ some i → j ≡ i
chosen_index true i j e = cc
chosen_index false i j e = cc

named_parent :
    (row column : ℕ) (parent : Option ModelIndex)
    → parent_of (some (record { row = row; column = column; internal_pointer = pointer_of parent }))
      ≡ top_index parent
unfolding parent_of pointer_of top_index
named_parent row column none = refl
named_parent row column (some parent) = refl

stored_data :
    {D : Type 0} (key : Bytes) (v m : D) (d : Dict D)
    → elim (lookup key (insert key v d)) [ some w ↦ Variant.double w | none ↦ Variant.double m ]
      ≡ Variant.double v
stored_data key v m d = rw (lookup-insert key key v d, equal_refl key) refl

module _ {F : Float} {E : Type 0} (has_index : SendingModel F E → ℕ → ℕ → Option ModelIndex → Bool)
    (documented : (s : SendingModel F E) (row column : ℕ) (parent : Option ModelIndex)
      → has_index s row column parent
        ≡ (ltb row (row_count s parent) && ltb column (column_count s parent))) where
  -- `hasIndex` answers, as it is documented, whether the row and the column are below the counts.
  -- Then there is an index for just the rows below `rowCount` and the first column, whatever the
  -- parent is; it has the row and the column, and names the row of its parent.
  pub index-row_count :
      (s : SendingModel F E) (row column : ℕ) (parent : Option ModelIndex)
      → index has_index s row column parent ≡ (
          if ltb row (row_count s parent) && ltb column 1
          then some (record { row = row; column = column; internal_pointer = pointer_of parent })
          else none)
  unfolding index pointer_of column_count index_within row_count
  index-row_count s row column none = rw (documented s row column none) (ground arith)
  index-row_count s row column (some parent) =
      rw (documented s row column (some parent))
        (under_rows parent.internal_pointer (message_at s parent.row) row column parent.row)

  -- The parent of an index that `index` gives is the index in the first column of the row of the
  -- parent that was asked for, and none if none was.
  pub parent_of-index :
      (s : SendingModel F E) (row column : ℕ) (parent : Option ModelIndex) (i : ModelIndex)
      → index has_index s row column parent ≡ some i
      → parent_of (some i) ≡ top_index parent
  parent_of-index s row column parent i e =
      let j : ModelIndex = record {
        row = row;
        column = column;
        internal_pointer = pointer_of parent;
      } in
      ap (λ k. parent_of (some k))
        (sym (chosen_index _ i j (sym (index-row_count s row column parent) ∙ e)))
      ∙ named_parent row column parent

module _ {F : Float} {E : Type 0} where
  open F use {Real}

  shown :
      (s : SendingModel F E) (found : DbcMessageDescription Real × DbcSignalDescription Real)
      (v : Real)
      → signal_data
          (record s {
            dynamic_signal_values =
                insert
                  (make_signal_key found.0.message_id found.1.signal_name)
                  v
                  s.dynamic_signal_values;
          })
          found.0.message_id
          found.1
          Role.signal_value
        ≡ Variant.double v
  unfolding signal_data
  shown s found v =
      stored_data (make_signal_key found.0.message_id found.1.signal_name) v found.1.minimum
        s.dynamic_signal_values

  item_data-signal :
      (s : SendingModel F E) (i : ModelIndex) (p : ℕ) (role : Role)
      → i.internal_pointer ≡ suc p
      → item_data s i role ≡ found_data s (signal_at s i) role
  unfolding item_data
  item_data-signal s i p role e =
      ap {B = Variant Real}
        (λ q. elim q [
          | zero ↦ elim (message_at s i.row) [
            | none ↦ Variant.invalid
            | some msg ↦ message_data msg role
          ]
          | suc r ↦ found_data s (signal_at s i) role
        ])
        e

  set_item-signal :
      (s : SendingModel F E) (i : ModelIndex) (given : Given Real) (p : ℕ)
      → i.internal_pointer ≡ suc p
      → set_item s i given ≡ set_found s (signal_at s i) given
  unfolding set_item
  set_item-signal s i given p e =
      ap {B = Bool × SendingModel F E}
        (λ q. elim q [ zero ↦ (false, s) | suc r ↦ set_found s (signal_at s i) given ]) e

  -- What is to be shown at an index after `setData`, by the signal that is there.
  unfoldable pub Shows :
      SendingModel F E
      → ModelIndex
      → Given Real
      → Option (DbcMessageDescription Real × DbcSignalDescription Real)
      → Bool × SendingModel F E
      → Type 0
  unfolding data_at cut
  Shows s i given none r = r ≡ (false, s)
  Shows s i given (some (msg, sig)) r =
      (r.0 ≡ true)
      × (data_at r.1 (some i) Role.signal_value
          ≡ Variant.double (cut F sig.minimum sig.maximum given.to_double))

  shown_at :
      (s : SendingModel F E) (i : ModelIndex) (values : Dict Real)
      (o : Option (DbcMessageDescription Real × DbcSignalDescription Real))
      → signal_at s i ≡ o
      → signal_at (record s { dynamic_signal_values = values }) i ≡ o
  unfolding signal_at message_at definitions
  shown_at s i values o e = e

  found-Shows :
      (s : SendingModel F E) (i : ModelIndex) (given : Given Real) (p : ℕ)
      (o : Option (DbcMessageDescription Real × DbcSignalDescription Real))
      → i.internal_pointer ≡ suc p
      → signal_at s i ≡ o
      → Shows s i given o (set_found s o given)
  unfolding Shows set_found data_at found_data
  found-Shows s i given p none e k = refl
  found-Shows s i given p (some found) e k = (
    refl,
    item_data-signal (set_found s (some found) given).1 i p Role.signal_value e
        ∙ ap (λ o. found_data (set_found s (some found) given).1 o Role.signal_value)
            (shown_at s i
              (insert (make_signal_key found.0.message_id found.1.signal_name)
                (within F given.to_double found.1) s.dynamic_signal_values)
              (some found) k)
        ∙ shown s found (within F given.to_double found.1)
        ∙ ap Variant.double (within-cut F given.to_double found.1),
  )

  -- `setData` of a value, at an index that names a parent: if the config has a signal there, it
  -- answers `true`, and `data` then gives the value that was set if it is neither below the minimum
  -- nor above the maximum of the signal, the minimum for a value below it and the maximum for one
  -- above it (for a range whose maximum is below its minimum, the maximum in either case); if there
  -- is no signal, it answers `false` and changes nothing.
  pub set_data-data_at :
      (s : SendingModel F E) (i : ModelIndex) (given : Given Real) (p : ℕ)
      → i.internal_pointer ≡ suc p
      → Shows s i given (signal_at s i) (set_data s (some i) given Role.signal_value)
  unfolding set_data
  set_data-data_at s i given p e =
      subst (Shows s i given (signal_at s i)) (sym (set_item-signal s i given p e))
        (found-Shows s i given p (signal_at s i) e refl)
