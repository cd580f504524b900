-- ===== src/HashMap.antt =====
-- `std::collections::HashMap` as the per-symbol tables use it: `get`, `insert` and `entry`. The
-- program never iterates over one, so the order of entries is not modelled.
use signalguard_rs.Common.{
  Bool, true, Option, none, some, List, [], ◌∷◌, ◌≡◌, ◌↔◌, refl, ap, ◌&&◌, get_or, arith, eq_iff,
  if◌then◌else◌,
}
use signalguard_rs.Domain.Symbol.{Symbol, symbol_eq}
use signalguard_rs.Domain.Anomaly.{AnomalyType, anomaly_eq, anomaly_eq_iff}

-- A type with the equality by which a map compares its keys.
pub record Keys (K : Type 0) : Type 0 where
  pub same : K → K → Bool
  pub same_iff : (a b : K) → (same a b ≡ true) ↔ (a ≡ b)

pub symbol_eq_iff : (a b : Symbol) → (symbol_eq a b ≡ true) ↔ (a ≡ b)
symbol_eq_iff a b = (
  λ h. let p : a.text ≡ b.text = (eq_iff a.text b.text).0 h in λ i. record { text = p i },
  λ e. (eq_iff a.text b.text).1 (ap (λ (s : Symbol). s.text) e),
)

abbrev pub symbols : Keys Symbol
symbols = record { same = symbol_eq; same_iff = symbol_eq_iff }

abbrev pub alert_same : Symbol × AnomalyType → Symbol × AnomalyType → Bool
alert_same (s, t) (s', t') = symbol_eq s s' && anomaly_eq t t'

pub alert_same_iff : (a b : Symbol × AnomalyType) → (alert_same a b ≡ true) ↔ (a ≡ b)
alert_same_iff (s, t) (s', t') = (
  λ h.
      let p : s ≡ s' = (symbol_eq_iff s s').0 (ground arith) in
      let q : t ≡ t' = (anomaly_eq_iff t t').0 (ground arith) in λ i. (p i, q i),
  λ e. ground (
    arith,
    (symbol_eq_iff s s').1 (ap (λ (k : Symbol × AnomalyType). k.0) e),
    (anomaly_eq_iff t t').1 (ap (λ (k : Symbol × AnomalyType). k.1) e),
  ),
)

-- the keys of the cooldown table
abbrev pub alerts : Keys (Symbol × AnomalyType)
alerts = record { same = alert_same; same_iff = alert_same_iff }

module _ {K : Type 0} (keys : Keys K) where
  pub same_refl : (k : K) → keys.same k k ≡ true
  same_refl k = (keys.same_iff k k).1 refl

module _ {K V : Type 0} (keys : Keys K) where
  unfoldable pub lookup : K → List (K × V) → Option V
  lookup k [] = none
  lookup k ((j, v) ∷ m) = if keys.same j k then some v else lookup k m

  unfoldable pub insert : K → V → List (K × V) → List (K × V)
  insert k v [] = (k, v) ∷ []
  insert k v ((j, w) ∷ m) = if keys.same j k then (k, v) ∷ m else (j, w) ∷ insert k v m

  -- `entry(key).or_insert_with(..)`: the value that is there, or the fresh one
  unfoldable pub entry : K → V → List (K × V) → V
  entry k fresh m = get_or (lookup k m) fresh

  pub lookup-insert :
      (k j : K) (v : V) (m : List (K × V))
      → lookup j (insert k v m) ≡ (if keys.same k j then some v else lookup j m)
  unfolding lookup insert
  lookup-insert k j v [] = refl
  lookup-insert k j v ((i, w) ∷ m) = ground (
    arith,
    lookup-insert k j v m,
    (keys.same_iff i k).0,
    (keys.same_iff i j).1,
    (keys.same_iff k j).0,
    (keys.same_iff k j).1,
    (keys.same_iff i j).0,
  )

  pub lookup-insert_self : (k : K) (v : V) (m : List (K × V)) → lookup k (insert k v m) ≡ some v
  lookup-insert_self k v m = ground (arith, lookup-insert k k v m, same_refl keys k)

  pub lookup-insert_ne :
      (k j : K) (v : V) (m : List (K × V)) → ¬ (k ≡ j) → lookup j (insert k v m) ≡ lookup j m
  lookup-insert_ne k j v m h =
      ground
        (arith, lookup-insert k j v m, λ (e : keys.same k j ≡ true). h ((keys.same_iff k j).0 e))
