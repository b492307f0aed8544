-- ===== src/SortedMap.antt =====
-- `std::map<std::string, V>` as the engine uses it: a list of entries in key order.
pub mod Laws
pub mod Append
use lsm_tree_storage_engine.Prelude.{ℕ, Option, ◌∷◌, List, ◌≡◌, [], if◌then◌else◌, none, some, true}
use lsm_tree_storage_engine.Key.{Key, key_lt, key_eq}

abbrev pub Entries {ℓ} : Type ℓ → Type ℓ
Entries V = List (Key × V)

module _ {ℓ} {V : Type ℓ} where
  -- `find`.
  unfoldable pub find : Key → Entries V → Option V
  find k [] = none
  find k ((j, v) ∷ m) = if key_eq j k then some v else find k m

  -- The entry of `k` becomes `v`: assigned where it stands, or emplaced in its place.
  unfoldable pub assign : Key → V → Entries V → Entries V
  assign k v [] = (k, v) ∷ []
  assign k v ((j, w) ∷ m) =
      if key_eq j k
      then (j, v) ∷ m
      else if key_lt k j
      then (k, v) ∷ (j, w) ∷ m
      else (j, w) ∷ assign k v m

  -- `erase(key)`.
  unfoldable pub erase : Key → Entries V → Entries V
  erase k [] = []
  erase k ((j, w) ∷ m) = if key_eq j k then m else (j, w) ∷ erase k m

  -- The entries from `lower_bound(k)` on.
  unfoldable pub lower_bound : Key → Entries V → Entries V
  lower_bound k [] = []
  lower_bound k ((j, v) ∷ m) = if key_lt j k then lower_bound k m else (j, v) ∷ m

  -- Every key is above `k`.
  abbrev pub Above : Key → Entries V → Type 0
  Above k [] = Unit
  Above k ((j, v) ∷ m) = (key_lt k j ≡ true) × Above k m

  abbrev pub IsSorted : Entries V → Type 0
  IsSorted [] = Unit
  IsSorted ((j, v) ∷ m) = Above j m × IsSorted m
