-- ===== src/BTreeMap.antt =====
-- `std::collections::BTreeMap` as the order book uses it: the entries in ascending order of keys.
-- The children prove what its users need.
pub mod Sorted
pub mod Lookup
pub mod Ends
use signalguard_rs.Common.{
  Bool, true, false, Option, none, some, List, [], ◌∷◌, LinearOrder, lt, eq, All, ◌≡◌,
  if◌then◌else◌, head?, get_last?,
}

module _ {K V : Type 0} (o : LinearOrder K) where
  -- `insert`: an entry of an equal key keeps the key and takes the value.
  unfoldable pub insert : K → V → List (K × V) → List (K × V)
  insert k v [] = (k, v) ∷ []
  insert k v ((j, w) ∷ m) =
      if lt o k j
      then (k, v) ∷ (j, w) ∷ m
      else if lt o j k
      then (j, w) ∷ insert k v m
      else (j, v) ∷ m

  unfoldable pub remove : K → List (K × V) → List (K × V)
  remove k [] = []
  remove k ((j, w) ∷ m) = if eq o k j then m else (j, w) ∷ remove k m

  unfoldable pub get : K → List (K × V) → Option V
  get k [] = none
  get k ((j, w) ∷ m) = if eq o k j then some w else get k m

  -- `k` is below every key of the map.
  abbrev pub Below : K → List (K × V) → Type 0
  Below k = All (λ e. lt o k e.0 ≡ true)

  -- The keys ascend: what a `BTreeMap` always keeps.
  abbrev pub IsSorted : List (K × V) → Type 0
  IsSorted [] = Unit
  IsSorted ((k, v) ∷ m) = Below k m × IsSorted m

module _ {K V : Type 0} where
  abbrev pub key_of : Option (K × V) → Option K
  key_of none = none
  key_of (some (k, v)) = some k

  -- `keys().next()`
  abbrev pub first_key : List (K × V) → Option K
  first_key m = key_of (head? m)

  -- `keys().next_back()`
  abbrev pub last_key : List (K × V) → Option K
  last_key m = key_of (get_last? m)
