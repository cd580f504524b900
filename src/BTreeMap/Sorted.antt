-- ===== src/BTreeMap/Sorted.antt =====
-- Every operation keeps the keys ascending.
use signalguard_rs.Common.{
  true, List, [], ◌∷◌, LinearOrder, lt, lt_trans, All, All-mono, All-take, ◌≡◌, ℕ, zero, suc, take,
  drop, arith,
}
use signalguard_rs.BTreeMap.{insert, remove, Below, IsSorted}

module _ {K V : Type 0} (o : LinearOrder K) where
  pub insert-All :
      (P : K × V → Type 0) (k : K) (v : V) (m : List (K × V))
      → P (k, v)
      → ((j : K) (w : V) → P (j, w) → P (j, v))
      → All P m
      → All P (insert o k v m)
  unfolding insert
  insert-All P k v [] hk hj h = (hk, tt)
  insert-All P k v ((j, w) ∷ m) hk hj (hw, h) = ground (arith, hj j w, insert-All P k v m hk hj h)

  pub remove-All : (P : K × V → Type 0) (k : K) (m : List (K × V)) → All P m → All P (remove o k m)
  unfolding remove
  remove-All P k [] h = tt
  remove-All P k ((j, w) ∷ m) (hw, h) = ground (arith, remove-All P k m h)

  pub Below-trans : (j k : K) (m : List (K × V)) → lt o j k ≡ true → Below o k m → Below o j m
  Below-trans j k m h b =
      All-mono (λ e. lt o k e.0 ≡ true) (λ e. lt o j e.0 ≡ true) m (λ e p. lt_trans o j k e.0 h p) b

  pub insert-IsSorted :
      (k : K) (v : V) (m : List (K × V)) → IsSorted o m → IsSorted o (insert o k v m)
  unfolding insert
  insert-IsSorted k v [] s = (tt, tt)
  insert-IsSorted k v ((j, w) ∷ m) (b, s) =
      ground (
        arith,
        Below-trans k j m,
        insert-All (λ e. lt o j e.0 ≡ true) k v m,
        insert-IsSorted k v m s,
      )

  pub remove-IsSorted : (k : K) (m : List (K × V)) → IsSorted o m → IsSorted o (remove o k m)
  unfolding remove
  remove-IsSorted k [] s = tt
  remove-IsSorted k ((j, w) ∷ m) (b, s) =
      ground (arith, remove-All (λ e. lt o j e.0 ≡ true) k m b, remove-IsSorted k m s)

  pub take-IsSorted : (n : ℕ) (m : List (K × V)) → IsSorted o m → IsSorted o (take n m)
  take-IsSorted zero m s = tt
  take-IsSorted (suc n) [] s = tt
  take-IsSorted (suc n) ((k, v) ∷ m) (b, s) =
      (All-take (λ e. lt o k e.0 ≡ true) n m b, take-IsSorted n m s)

  pub drop-IsSorted : (n : ℕ) (m : List (K × V)) → IsSorted o m → IsSorted o (drop n m)
  drop-IsSorted zero m s = s
  drop-IsSorted (suc n) [] s = tt
  drop-IsSorted (suc n) ((k, v) ∷ m) (b, s) = drop-IsSorted n m s
