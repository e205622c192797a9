-- ===== src/Prelude/Maps.antt =====
-- std::map and std::unordered_map as association lists, in the order of iteration.
use mathlib.Core.Logic.{ite}
use dist_storage.Prelude.Tests.{if◌then◌else◌}
use mathlib.Core.Path.{◌≡◌, refl}
use mathlib.Core.Bool.{Bool}
use mathlib.Core.List.{List, [], ◌∷◌}
use mathlib.Core.Option.{Option, none, some}
use native.Mathlib.Omega.{arith}

-- `d` decides equality of keys and `before` is the order in which the container keeps them.
module _ {ℓ} {K V : Type ℓ} (d : Discrete K) where
  -- find
  unfoldable pub lookup : K → List (K × V) → Option V
  lookup k [] = none
  lookup k ((j, v) ∷ m) = ite (d j k) (some v) (lookup k m)

  -- erase
  unfoldable pub erase : K → List (K × V) → List (K × V)
  erase k [] = []
  erase k ((j, v) ∷ m) = ite (d j k) (erase k m) ((j, v) ∷ erase k m)

  pub lookup-erase :
      (k j : K) (m : List (K × V)) → lookup j (erase k m) ≡ ite (d k j) none (lookup j m)
  unfolding lookup erase
  lookup-erase k j [] = ground arith
  lookup-erase k j ((i, w) ∷ m) = ground (arith, lookup-erase k j m)

  module _ (before : K → K → Bool) where
    -- operator[] followed by an assignment, and insert_or_assign
    unfoldable pub insert_or_assign : K → V → List (K × V) → List (K × V)
    insert_or_assign k v [] = (k, v) ∷ []
    insert_or_assign k v ((j, w) ∷ m) =
        ite (d j k) ((j, v) ∷ m)
          (if before k j then (k, v) ∷ (j, w) ∷ m else (j, w) ∷ insert_or_assign k v m)

    pub lookup-insert_or_assign :
        (k j : K) (v : V) (m : List (K × V))
        → lookup j (insert_or_assign k v m) ≡ ite (d k j) (some v) (lookup j m)
    unfolding lookup insert_or_assign
    lookup-insert_or_assign k j v [] = refl
    lookup-insert_or_assign k j v ((i, w) ∷ m) = ground (arith, lookup-insert_or_assign k j v m)

    -- emplace: an existing entry stays
    unfoldable pub emplace : K → V → List (K × V) → List (K × V)
    emplace k v m = elim (lookup k m) [ none ↦ insert_or_assign k v m | some w ↦ m ]

    pub lookup-emplace :
        (k j : K) (v : V) (m : List (K × V))
        → lookup k m ≡ none
        → lookup j (emplace k v m) ≡ ite (d k j) (some v) (lookup j m)
    unfolding emplace
    lookup-emplace k j v m h = rw (h, emplace) (lookup-insert_or_assign k j v m)

    pub emplace_old :
        (k : K) (v : V) (m : List (K × V)) {w : V} → lookup k m ≡ some w → emplace k v m ≡ m
    unfolding emplace
    emplace_old k v m h = rw (h, emplace)
