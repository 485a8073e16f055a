-- ===== src/Prelude/Dict.antt =====
-- `std::map` and `std::set` with keys of type `std::string`. The program asks for single keys only,
-- so their order does not matter. Proofs go by the laws.
use mathlib.Core.Path.{◌≡◌, refl}
use mathlib.Core.Bool.{Bool, false, ◌||◌}
use mathlib.Core.Option.{Option, none, some}
use mathlib.Core.List.{List, [], ◌∷◌}
use native.Mathlib.Omega.{arith}
use cancept.Prelude.Tests.{if◌then◌else◌}
use cancept.Prelude.Text.{Bytes, equal, equal_iff}

abbrev pub Dict {ℓ} : Type ℓ → Type ℓ
Dict V = List (Bytes × V)

module _ {ℓ} {V : Type ℓ} where
  unfoldable pub lookup : Bytes → Dict V → Option V
  lookup k [] = none
  lookup k ((j, v) ∷ d) = if equal k j then some v else lookup k d

  -- `d[k] = v`
  unfoldable pub insert : Bytes → V → Dict V → Dict V
  insert k v [] = (k, v) ∷ []
  insert k v ((j, w) ∷ d) =
      let rest = insert k v d in if equal k j then (k, v) ∷ d else (j, w) ∷ rest

  unfoldable pub erase : Bytes → Dict V → Dict V
  erase k [] = []
  erase k ((j, w) ∷ d) = let rest = erase k d in if equal k j then rest else (j, w) ∷ rest

  pub lookup-insert :
      (j k : Bytes) (v : V) (d : Dict V)
      → lookup j (insert k v d) ≡ (if equal j k then some v else lookup j d)
  unfolding insert lookup
  lookup-insert j k v [] = refl
  lookup-insert j k v ((i, w) ∷ d) =
      ground (arith, lookup-insert j k v d, equal_iff j k, equal_iff k i, equal_iff j i)

  pub lookup-erase :
      (j k : Bytes) (d : Dict V) → lookup j (erase k d) ≡ (if equal j k then none else lookup j d)
  unfolding erase lookup
  lookup-erase j k [] = ground arith
  lookup-erase j k ((i, w) ∷ d) =
      ground (arith, lookup-erase j k d, equal_iff j k, equal_iff k i, equal_iff j i)

unfoldable pub contains : Bytes → List Bytes → Bool
contains k [] = false
contains k (j ∷ s) = equal k j || contains k s

unfoldable pub insert_key : Bytes → List Bytes → List Bytes
unfolding contains
insert_key k s = if contains k s then s else k ∷ s

unfoldable pub erase_key : Bytes → List Bytes → List Bytes
erase_key k [] = []
erase_key k (j ∷ s) = let rest = erase_key k s in if equal k j then rest else j ∷ rest

pub contains-insert_key :
    (j k : Bytes) (s : List Bytes) → contains j (insert_key k s) ≡ (equal j k || contains j s)
unfolding insert_key contains
contains-insert_key j k s = ground (arith, equal_iff j k)

pub contains-erase_key :
    (j k : Bytes) (s : List Bytes)
    → contains j (erase_key k s) ≡ (if equal j k then false else contains j s)
unfolding erase_key contains
contains-erase_key j k [] = ground arith
contains-erase_key j k (i ∷ s) =
    ground (arith, contains-erase_key j k s, equal_iff j k, equal_iff k i, equal_iff j i)
