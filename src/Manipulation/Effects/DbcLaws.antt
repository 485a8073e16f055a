-- ===== src/Manipulation/Effects/DbcLaws.antt =====
-- The map of `ManipulationHandler::inject` and the effects that go through it: a name stands for
-- the first signal of the message that bears it.
use cancept.Prelude.{
  ℕ, suc, ◌+◌, ◌≡◌, refl, ap, ◌∙◌, Bool, true, false, List, [], ◌∷◌, Option, none, some,
  if◌then◌else◌, Bytes, equal, equal_iff, get_elem?, arith, Bool-cases, Option-cases, inl, inr, map,
  subst,
}
use cancept.Core.Float.{Float, std_clamp}
use cancept.Core.Dto.{DbcCanSignal}
use cancept.Manipulation.Random.{Random}
use cancept.Manipulation.Types.{DbcEffect, value_set_effect, clamp_effect, noise_effect}
use cancept.Manipulation.Triggers.{SignalMap, find, emplace, signal_map_from, signal_map}
use cancept.Manipulation.Effects.{write_value, at_signal, apply_dbc_effect}

-- The index of the first name `k`, counted from `i`.
index_from : Bytes → List Bytes → ℕ → Option ℕ
index_from k [] i = none
index_from k (x ∷ xs) i = if equal x k then some i else index_from k xs (i + 1)

abbrev or_else : Option ℕ → Option ℕ → Option ℕ
or_else none y = y
or_else (some x) y = some x

or_else-none : (o : Option ℕ) → o ≡ or_else o none
or_else-none none = refl
or_else-none (some x) = refl

or_else-if :
    (o : Option ℕ) (b : Bool) (i : ℕ) (p : Option ℕ)
    → or_else (or_else o (if b then some i else none)) p ≡ or_else o (if b then some i else p)
or_else-if none true i p = refl
or_else-if none false i p = refl
or_else-if (some x) b i p = refl

find-emplace :
    (k j : Bytes) (i : ℕ) (m : SignalMap)
    → find k (emplace j i m) ≡ or_else (find k m) (if equal j k then some i else none)
unfolding find emplace
find-emplace k j i m =
    let moved = λ (o : Option ℕ) (q : find j m ≡ o) (e : equal j k ≡ true).
      subst (λ t. find t m ≡ o) ((equal_iff j k).0 e) q in
    elim (Option-cases (find j m)) [
      | inl new ↦ elim (Bool-cases (equal j k)) [
        | inl e ↦ rw (new, emplace, e, moved none new e)
        | inr f ↦ rw (new, emplace, f) (or_else-none (find k m))
      ]
      | inr (x, old) ↦ elim (Bool-cases (equal j k)) [
        | inl e ↦ rw (old, emplace, moved (some x) old e)
        | inr f ↦ rw (old, emplace, f) (or_else-none (find k m))
      ]
    ]

abbrev next : Option ℕ → Option ℕ
next none = none
next (some i) = some (suc i)

index_from-suc :
    (k : Bytes) (xs : List Bytes) (i : ℕ) → index_from k xs (i + 1) ≡ next (index_from k xs i)
unfolding index_from
index_from-suc k [] i = refl
index_from-suc k (x ∷ xs) i = ground (arith, index_from-suc k xs (i + 1))

module _ {D : Type 0} where
  -- The independent description: the first signal named `k` gets the value `f v`.
  abbrev pub update_first : Bytes → (D → D) → List (DbcCanSignal D) → List (DbcCanSignal D)
  update_first k f [] = []
  update_first k f (s ∷ ss) =
      if equal s.name k then record s { value = f s.value } ∷ ss else s ∷ update_first k f ss

  abbrev pub names : List (DbcCanSignal D) → List Bytes
  names = map (λ s. s.name)

  find-signal_map_from :
      (k : Bytes) (ss : List (DbcCanSignal D)) (i : ℕ) (m : SignalMap)
      → find k (signal_map_from ss i m) ≡ or_else (find k m) (index_from k (names ss) i)
  unfolding signal_map_from index_from
  find-signal_map_from k [] i m = or_else-none (find k m)
  find-signal_map_from k (s ∷ ss) i m =
      find-signal_map_from k ss (i + 1) (emplace s.name i m)
      ∙ ap (λ o. or_else o (index_from k (names ss) (i + 1))) (find-emplace k s.name i m)
      ∙ or_else-if (find k m) (equal s.name k) i (index_from k (names ss) (i + 1))

  abbrev write_at : Option ℕ → (D → D) → List (DbcCanSignal D) → List (DbcCanSignal D)
  write_at none f ss = ss
  write_at (some i) f ss = write_value i f ss

  write_next :
      (o : Option ℕ) (f : D → D) (s : DbcCanSignal D) (ss : List (DbcCanSignal D))
      → write_at (next o) f (s ∷ ss) ≡ s ∷ write_at o f ss
  unfolding write_value
  write_next none f s ss = refl
  write_next (some i) f s ss = elim (Option-cases (get_elem? ss i)) [
    | inl out ↦ rw (out, write_value)
    | inr (t, found) ↦ rw (found, write_value)
  ]

  write_first :
      (k : Bytes) (f : D → D) (ss : List (DbcCanSignal D))
      → write_at (index_from k (names ss) 0) f ss ≡ update_first k f ss
  unfolding index_from write_value
  write_first k f [] = refl
  write_first k f (s ∷ ss) = elim (Bool-cases (equal s.name k)) [
    | inl e ↦ rw e
    | inr n ↦ rw n (
        ap (λ (o : Option ℕ). write_at o f (s ∷ ss)) (index_from-suc k (names ss) 0)
        ∙ write_next (index_from k (names ss) 0) f s ss
        ∙ ap (◌∷◌ s) (write_first k f ss))
  ]

  names-update_first :
      (k : Bytes) (f : D → D) (ss : List (DbcCanSignal D)) → names (update_first k f ss) ≡ names ss
  names-update_first k f [] = refl
  names-update_first k f (s ∷ ss) = ground (arith, names-update_first k f ss)

  at_signal-write_at :
      (k : Bytes) (f : D → D) (m : SignalMap) (ss : List (DbcCanSignal D))
      → at_signal k f m ss ≡ write_at (find k m) f ss
  unfolding at_signal
  at_signal-write_at k f m ss = elim (Option-cases (find k m)) [
    | inl absent ↦ rw (absent, at_signal)
    | inr (i, there) ↦ rw (there, at_signal)
  ]

  -- Through a map that was built when the message had the same names, `f` goes to the first signal
  -- named `k`, and to no other.
  pub at_signal-update_first :
      (k : Bytes) (f : D → D) (before ss : List (DbcCanSignal D))
      → names before ≡ names ss
      → at_signal k f (signal_map before) ss ≡ update_first k f ss
  unfolding signal_map find
  at_signal-update_first k f before ss same =
      at_signal-write_at k f (signal_map before) ss
      ∙ ap (λ (o : Option ℕ). write_at o f ss)
          (find-signal_map_from k before 0 [] ∙ ap (λ xs. index_from k xs 0) same)
      ∙ write_first k f ss

module _ (F : Float) (R : Random F) where
  open F use {Real, add}
  open R use {Engine}

  -- The value that an effect gives to its signal; the noise is the drawn one.
  abbrev pub effect_value : DbcEffect Real → Engine → Real → Real
  effect_value (value_set_effect k v) rng x = v
  effect_value (clamp_effect k lo hi) rng x = std_clamp F x lo hi
  effect_value (noise_effect k amplitude) rng x =
      add x (R.between (F.neg amplitude) amplitude rng).0

  abbrev pub effect_name : DbcEffect Real → Bytes
  effect_name (value_set_effect k v) = k
  effect_name (clamp_effect k lo hi) = k
  effect_name (noise_effect k amplitude) = k

  -- Under the map of a message with the same names, an effect gives its value to the first signal
  -- that bears its name, leaves every other signal as it is, and changes nothing where no signal
  -- bears the name.
  pub apply_dbc_effect_first :
      (e : DbcEffect Real) (before ss : List (DbcCanSignal Real)) (rng : Engine)
      → names before ≡ names ss
      → ((apply_dbc_effect F R e (signal_map before) ss rng).0
          ≡ update_first (effect_name e) (effect_value e rng) ss)
        × (names (apply_dbc_effect F R e (signal_map before) ss rng).0 ≡ names ss)
  unfolding apply_dbc_effect
  apply_dbc_effect_first (value_set_effect k v) before ss rng same =
      let first = at_signal-update_first k (λ _. v) before ss same in
      (first, ap names first ∙ names-update_first k _ ss)
  apply_dbc_effect_first (clamp_effect k lo hi) before ss rng same =
      let first = at_signal-update_first k (λ x. std_clamp F x lo hi) before ss same in
      (first, ap names first ∙ names-update_first k _ ss)
  apply_dbc_effect_first (noise_effect k amplitude) before ss rng same =
      let drawn = (R.between (F.neg amplitude) amplitude rng).0 in
      let first = at_signal-update_first k (λ x. add x drawn) before ss same in
      (first, ap names first ∙ names-update_first k _ ss)
