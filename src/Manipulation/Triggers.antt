-- ===== src/Manipulation/Triggers.antt =====
-- `manipulation/service/manipulation_trigger_handler.hpp`, and the map from names to signals that
-- `ManipulationHandler::inject` builds.
use cancept.Prelude.{
  ℕ, ◌+◌, Bool, true, false, List, [], ◌∷◌, Option, none, some, ◌==◌, if◌then◌else◌, Bytes, equal,
  get_elem?, not,
}
use cancept.Core.Float.{Float}
use cancept.Core.Dto.{DbcCanSignal}
use cancept.Manipulation.Random.{Random}
use cancept.Manipulation.Types.{
  RawTrigger, DbcTrigger, signal_name_trigger, signal_threshold_trigger, id_trigger, dlc_trigger,
}

-- `std::unordered_map<std::string, Core::DbcCanSignal*>`: a pointer is the index of the signal in
-- the message.
abbrev pub SignalMap : Type 0
SignalMap = List (Bytes × ℕ)

-- `find`, with the index in place of the iterator.
unfoldable pub find : Bytes → SignalMap → Option ℕ
find k [] = none
find k ((j, i) ∷ m) = if equal j k then some i else find k m

-- `emplace` keeps the entry that is there.
unfoldable pub emplace : Bytes → ℕ → SignalMap → SignalMap
unfolding find
emplace k i m = elim (find k m) [ none ↦ (k, i) ∷ m | some j ↦ m ]

unfoldable pub signal_map_from : {D : Type 0} → List (DbcCanSignal D) → ℕ → SignalMap → SignalMap
unfolding emplace
signal_map_from [] i m = m
signal_map_from (s ∷ ss) i m = signal_map_from ss (i + 1) (emplace s.name i m)

unfoldable pub signal_map : {D : Type 0} → List (DbcCanSignal D) → SignalMap
unfolding signal_map_from
signal_map ss = signal_map_from ss 0 []

module _ (F : Float) (R : Random F) where
  open F use {Real, lt}
  open R use {Engine, Chance, canonical, le}

  unfoldable pub fires_raw_trigger : RawTrigger Chance → ℕ → ℕ → List ℕ → Engine → Bool × Engine
  fires_raw_trigger (id_trigger t) id dlc payload rng = (id == t, rng)
  fires_raw_trigger (dlc_trigger t) id dlc payload rng = (dlc == t, rng)
  fires_raw_trigger (RawTrigger.random_trigger p) id dlc payload rng =
      let (x, rng') = canonical rng in (le x p, rng')

  -- `it->second->value >= t.threshold`, or `<=`, for the signal under the pointer.
  unfoldable pub passes : Real → Bool → Option (DbcCanSignal Real) → Bool
  passes threshold greater none = false
  passes threshold greater (some s) =
      if greater then not (lt s.value threshold) else not (lt threshold s.value)

  unfoldable pub fires_dbc_trigger :
      DbcTrigger Real Chance → SignalMap → List (DbcCanSignal Real) → Engine → Bool × Engine
  unfolding find passes
  fires_dbc_trigger (signal_name_trigger k) m ss rng =
      (elim (find k m) [ none ↦ false | some i ↦ true ], rng)
  fires_dbc_trigger (signal_threshold_trigger k threshold greater) m ss rng =
      (elim (find k m) [ none ↦ false | some i ↦ passes threshold greater (get_elem? ss i) ], rng)
  fires_dbc_trigger (DbcTrigger.random_trigger p) m ss rng =
      let (x, rng') = canonical rng in (le x p, rng')

  -- `std::ranges::all_of`: a trigger behind one that does not fire is not asked, and draws nothing.
  unfoldable pub all_of :
      {T : Type 0} → (T → Engine → Bool × Engine) → List T → Engine → Bool × Engine
  all_of fires [] rng = (true, rng)
  all_of fires (t ∷ ts) rng =
      let first = fires t rng in
      elim first.0 [ true ↦ all_of fires ts first.1 | false ↦ (false, first.1) ]
