-- ===== src/SendingModel/Tree.antt =====
-- The item model of the views: messages, and under each its signals. Rows and columns are not
-- negative, as those of a valid index. `std::advance` past the end of a list is undefined; here it
-- stays at the end. The conversions of a `QVariant` and `hasIndex` are Qt's, and parameters.
pub mod Laws
use cancept.Prelude.{
  ℕ, zero, suc, ◌-◌, Bool, true, false, Bytes, List, Option, none, some, get_elem?, length, ltb,
  if◌then◌else◌,
}
use cancept.Prelude.Int.{ℤ, ltb_ℤ}
use cancept.Prelude.Dict.{lookup, insert}
use cancept.Core.Float.{Float}
use cancept.Core.Dto.{DbcSignalDescription, DbcMessageDescription}
use cancept.SendingModel.State.{
  Mode, SendingModel, make_signal_key, definitions, min_cycle_interval_us, max_cycle_interval_us,
}

-- A valid `QModelIndex`; the invalid one is `none`. The pointer is null or counts from 1.
pub record ModelIndex : Type 0 where
  pub row : ℕ
  pub column : ℕ
  pub internal_pointer : ℕ

pub data Role : Type 0 where
  display : Role
  value : Role
  can_id : Role
  signal_value : Role
  active_mode : Role
  is_cyclic_enabled : Role
  cycle_interval_us : Role
  is_currently_sending : Role
  other : Role

-- What `data` answers with.
pub data Variant (D : Type 0) : Type 0 where
  invalid : Variant D
  mode : Mode → Variant D
  bool : Bool → Variant D
  int : ℤ → Variant D
  uint : ℕ → Variant D
  double : D → Variant D
  string : Bytes → Variant D

-- A `QVariant` for `setData`, by what its conversions give; that to an int is read as a mode.
pub record Given (D : Type 0) : Type 0 where
  pub to_int : ℤ
  pub to_mode : Mode
  pub to_bool : Bool
  pub to_double : D

-- The rows under an index: those of a message are its signals, and a signal has none.
unfoldable pub rows_below : {D : Type 0} → ℕ → Option (DbcMessageDescription D) → ℕ
rows_below (suc p) o = 0
rows_below zero none = 0
rows_below zero (some msg) = length msg.signal_descriptions

unfoldable pub index_under :
    {D : Type 0} → Option (DbcMessageDescription D) → ℕ → ℕ → ℕ → Option ModelIndex
index_under none row column parent_row = none
index_under (some msg) row column parent_row =
    if ltb row (length msg.signal_descriptions)
    then some (record { row = row; column = column; internal_pointer = suc parent_row })
    else none

unfoldable pub paired : {A B : Type 0} → A → Option B → Option (A × B)
paired a none = none
paired a (some b) = some (a, b)

unfoldable pub signal_in :
    {D : Type 0}
    → Option (DbcMessageDescription D)
    → ℕ
    → Option (DbcMessageDescription D × DbcSignalDescription D)
unfolding paired
signal_in none row = none
signal_in (some msg) row = paired msg (get_elem? msg.signal_descriptions row)

unfoldable pub message_data : {D : Type 0} → DbcMessageDescription D → Role → Variant D
message_data msg Role.display = Variant.string msg.message_name
message_data msg Role.can_id = Variant.uint msg.message_id
message_data msg _ = Variant.invalid

unfoldable pub interval : ℤ → ℤ
interval given =
    let raised = if ltb_ℤ given min_cycle_interval_us then min_cycle_interval_us else given in
    if ltb_ℤ max_cycle_interval_us raised then max_cycle_interval_us else raised

module _ (F : Float) where
  open F use {Real, lt}

  unfoldable pub within : Real → DbcSignalDescription Real → Real
  within v sig =
      let raised = if lt v sig.minimum then sig.minimum else v in
      if lt sig.maximum raised then sig.maximum else raised

module _ {F : Float} {E : Type 0} where
  open F use {Real}

  unfoldable pub message_at : SendingModel F E → ℕ → Option (DbcMessageDescription Real)
  unfolding definitions
  message_at s row = get_elem? (definitions s) row

  unfoldable pub row_count : SendingModel F E → Option ModelIndex → ℕ
  unfolding message_at definitions rows_below
  row_count s none = length (definitions s)
  row_count s (some parent) = rows_below parent.internal_pointer (message_at s parent.row)

  unfoldable pub column_count : SendingModel F E → Option ModelIndex → ℕ
  column_count s parent = 1

  unfoldable pub index_within : SendingModel F E → ℕ → ℕ → Option ModelIndex → Option ModelIndex
  unfolding message_at definitions index_under
  index_within s row column none =
      if ltb row (length (definitions s))
      then some (record { row = row; column = column; internal_pointer = 0 })
      else none
  index_within s row column (some parent) =
      index_under (message_at s parent.row) row column parent.row

  module _ (has_index : SendingModel F E → ℕ → ℕ → Option ModelIndex → Bool) where
    unfoldable pub index : SendingModel F E → ℕ → ℕ → Option ModelIndex → Option ModelIndex
    unfolding index_within
    index s row column parent =
        if has_index s row column parent then index_within s row column parent else none

  -- The signal that an index stands for, with its message.
  unfoldable pub signal_at :
      SendingModel F E
      → ModelIndex
      → Option (DbcMessageDescription Real × DbcSignalDescription Real)
  unfolding message_at signal_in
  signal_at s i = signal_in (message_at s (i.internal_pointer - 1)) i.row

  unfoldable pub signal_data :
      SendingModel F E → ℕ → DbcSignalDescription Real → Role → Variant Real
  unfolding make_signal_key lookup
  signal_data s message_id sig Role.display = Variant.string sig.signal_name
  signal_data s message_id sig Role.signal_value =
      elim (lookup (make_signal_key message_id sig.signal_name) s.dynamic_signal_values) [
        | some v ↦ Variant.double v
        | none ↦ Variant.double sig.minimum
      ]
  signal_data s message_id sig _ = Variant.invalid

  unfoldable pub found_data :
      SendingModel F E
      → Option (DbcMessageDescription Real × DbcSignalDescription Real)
      → Role
      → Variant Real
  unfolding signal_data
  found_data s none role = Variant.invalid
  found_data s (some found) role = signal_data s found.0.message_id found.1 role

  unfoldable pub item_data : SendingModel F E → ModelIndex → Role → Variant Real
  unfolding message_at signal_at message_data found_data
  item_data s i role = elim (i.internal_pointer) [
    | zero ↦ elim (message_at s i.row) [ none ↦ Variant.invalid | some msg ↦ message_data msg role ]
    | suc p ↦ found_data s (signal_at s i) role
  ]

  unfoldable pub data_at : SendingModel F E → Option ModelIndex → Role → Variant Real
  unfolding item_data
  data_at s none role = Variant.invalid
  data_at s (some i) Role.active_mode = Variant.mode s.current_mode
  data_at s (some i) Role.is_cyclic_enabled = Variant.bool s.cyclic_state.is_enabled
  data_at s (some i) Role.cycle_interval_us = Variant.int s.cyclic_state.interval_us
  data_at s (some i) Role.is_currently_sending = Variant.bool s.cyclic_state.is_sending
  data_at s (some i) role = item_data s i role

  unfoldable pub set_found :
      SendingModel F E
      → Option (DbcMessageDescription Real × DbcSignalDescription Real)
      → Given Real
      → Bool × SendingModel F E
  unfolding within make_signal_key insert
  set_found s none given = (false, s)
  set_found s (some found) given = (
    true,
    record s {
      dynamic_signal_values =
          insert (make_signal_key found.0.message_id found.1.signal_name)
            (within F given.to_double found.1) s.dynamic_signal_values;
    },
  )

  unfoldable pub set_item : SendingModel F E → ModelIndex → Given Real → Bool × SendingModel F E
  unfolding signal_at set_found
  set_item s i given = elim (i.internal_pointer) [
    | zero ↦ (false, s)
    | suc p ↦ set_found s (signal_at s i) given
  ]

  unfoldable pub set_data :
      SendingModel F E → Option ModelIndex → Given Real → Role → Bool × SendingModel F E
  unfolding set_item interval
  set_data s i given Role.active_mode = (true, record s { current_mode = given.to_mode })
  set_data s i given Role.is_cyclic_enabled =
      (true, record s { cyclic_state = record (s.cyclic_state) { is_enabled = given.to_bool } })
  set_data s i given Role.cycle_interval_us = (
    true,
    record s { cyclic_state = record (s.cyclic_state) { interval_us = interval given.to_int } },
  )
  set_data s none given Role.signal_value = (false, s)
  set_data s (some i) given Role.signal_value = set_item s i given
  set_data s i given _ = (false, s)

unfoldable pub parent_of : Option ModelIndex → Option ModelIndex
parent_of none = none
parent_of (some child) = elim (child.internal_pointer) [
  | zero ↦ none
  | suc p ↦ some (record { row = p; column = 0; internal_pointer = 0 })
]
