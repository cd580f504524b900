-- ===== src/BTreeMap/Lookup.antt =====
-- What a key is bound to after each operation.
use signalguard_rs.Common.{
  List, [], ◌∷◌, LinearOrder, eq, ◌≡◌, refl, arith, none, some, if◌then◌else◌,
}
use signalguard_rs.BTreeMap.{insert, remove, get, Below, IsSorted}

module _ {K V : Type 0} (o : LinearOrder K) where
  get-Below : (k : K) (m : List (K × V)) → Below o k m → get o k m ≡ none
  unfolding get
  get-Below k [] b = refl
  get-Below k ((j, w) ∷ m) (h, b) = ground (arith, get-Below k m b)

  pub get-insert :
      (p k : K) (v : V) (m : List (K × V))
      → get o p (insert o k v m) ≡ (if eq o p k then some v else get o p m)
  unfolding get insert
  get-insert p k v [] = refl
  get-insert p k v ((j, w) ∷ m) = ground (
    arith,
    get-insert p k v m,
    o.le_trans p k j,
    o.le_trans j k p,
    o.le_trans p j k,
    o.le_trans k j p,
    o.le_trans k p j,
    o.le_trans j p k,
    o.le_total k j,
    o.le_total j k,
  )

  pub get-remove :
      (p k : K) (m : List (K × V))
      → IsSorted o m
      → get o p (remove o k m) ≡ (if eq o p k then none else get o p m)
  unfolding get remove
  get-remove p k [] s = ground arith
  get-remove p k ((j, w) ∷ m) (b, s) = ground (
    arith,
    get-remove p k m s,
    o.le_antisymm p k,
    o.le_antisymm k j,
    o.le_antisymm p j,
    get-Below j m b,
  )
