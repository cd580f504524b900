-- ===== src/BTreeMap/Ends.antt =====
-- The first and the last entry: removing one by its key, and the order of the others to it.
use signalguard_rs.Common.{
  ℕ, zero, suc, ◌-◌, true, List, [], ◌∷◌, LinearOrder, lt, le_refl, ◌≡◌, refl, ap, arith, length,
  take, drop, head?, get_last?, last_from, ◌≤◌, ◌<◌,
}
use signalguard_rs.BTreeMap.{remove, Below, IsSorted}

-- all but the last entry
abbrev pub but_last {ℓ} : {A : Type ℓ} → List A → List A
but_last [] = []
but_last (e ∷ []) = []
but_last (e ∷ f ∷ m) = e ∷ but_last (f ∷ m)

module _ {K V : Type 0} (o : LinearOrder K) where
  pub remove_first : (k : K) (v : V) (m : List (K × V)) → remove o k ((k, v) ∷ m) ≡ m
  unfolding remove
  remove_first k v m = ground (arith, le_refl o k)

  Below-last :
      (k : K) (e : K × V) (m : List (K × V)) → Below o k (e ∷ m) → lt o k (last_from e m).0 ≡ true
  Below-last k e [] b = b.0
  Below-last k e (f ∷ m) b = Below-last k f m b.1

  pub remove_last :
      (e : K × V) (m : List (K × V))
      → IsSorted o (e ∷ m)
      → remove o (last_from e m).0 (e ∷ m) ≡ but_last (e ∷ m)
  unfolding remove
  remove_last e [] s = ground (arith, le_refl o e.0)
  remove_last e (f ∷ m) (b, s) = ground (arith, Below-last e.0 f m b, remove_last f m s)

module _ {K V : Type 0} where
  pub length-but_last : (m : List (K × V)) → length (but_last m) ≡ length m - 1
  length-but_last [] = omega arith
  length-but_last (e ∷ []) = omega arith
  length-but_last (e ∷ f ∷ m) = omega (arith, length-but_last (f ∷ m))

  pub take-but_last : (n : ℕ) (m : List (K × V)) → n < length m → take n (but_last m) ≡ take n m
  take-but_last n [] h = absurd (omega arith)
  take-but_last zero (e ∷ []) h = refl
  take-but_last (suc n) (e ∷ []) h = absurd (omega arith)
  take-but_last zero (e ∷ f ∷ m) h = refl
  take-but_last (suc n) (e ∷ f ∷ m) h = ap (◌∷◌ e) (take-but_last n (f ∷ m) (omega arith))

  pub take_all : (n : ℕ) (m : List (K × V)) → length m ≤ n → take n m ≡ m
  take_all zero [] h = refl
  take_all zero (e ∷ m) h = absurd (omega arith)
  take_all (suc n) [] h = refl
  take_all (suc n) (e ∷ m) h = ap (◌∷◌ e) (take_all n m (omega arith))

  pub head-take : (n : ℕ) (m : List (K × V)) → 0 < n → head? (take n m) ≡ head? m
  head-take zero m h = absurd (omega arith)
  head-take (suc n) [] h = refl
  head-take (suc n) (e ∷ m) h = refl

  pub last-drop : (n : ℕ) (m : List (K × V)) → n < length m → get_last? (drop n m) ≡ get_last? m
  last-drop zero m h = refl
  last-drop (suc n) [] h = absurd (omega arith)
  last-drop (suc zero) (e ∷ []) h = absurd (omega arith)
  last-drop (suc (suc n)) (e ∷ []) h = absurd (omega arith)
  last-drop (suc n) (e ∷ f ∷ m) h = last-drop n (f ∷ m) (omega arith)
