-- ===== src/Storage/Redis/Consistent.antt =====
-- src/storage/redis.rs: when the cache is valid, and what its server is relied on for.
use Prim.Native.Nat.{ℕ}
use signalguard_rs.Common.{
  String, Bool, true, false, some, List, [], ◌∷◌, ◌≡◌, ◌⊎◌, refl, ap, sym, subst, inl, inr, arith,
  All, map, length, str_eq, eq_refl,
}
use signalguard_rs.Common.Fallible.{done}
use signalguard_rs.External.{Externals}
use signalguard_rs.Domain.Symbol.{Symbol, SymbolResult, new_symbol}
use signalguard_rs.Domain.MarketState.{MarketState}
use signalguard_rs.Storage.Redis.{
  Server, collect, market_state_key, symbol_set_key, sort, canonical_symbol, check_payload,
  check_states, validate_registered, validate_market_state_cache,
}
use signalguard_rs.Storage.Redis.Keys.{sort-All, length-sort}

abbrev pub Member : String → List String → Type 0
Member m [] = ⊥
Member m (n ∷ ns) = (m ≡ n) ⊎ Member m ns

pub not_both : (b : Bool) → b ≡ true → ¬ (b ≡ false)
not_both b h k = ground arith

pub All-Member :
    (P : String → Type 0) (ms : List String) → ((m : String) → Member m ms → P m) → All P ms
All-Member P [] h = tt
All-Member P (m ∷ ms) h = (h m (inl refl), All-Member P ms (λ n k. h n (inr k)))

pub Member-All :
    (P : String → Type 0) (ms : List String) (m : String) → All P ms → Member m ms → P m
Member-All P [] m h k = elim k [ ]
Member-All P (n ∷ ns) m (hn, h) (inl e) = subst P (sym e) hn
Member-All P (n ∷ ns) m (hn, h) (inr k) = Member-All P ns m h k

module _ ⦃x : Externals⦄ where
  -- What Redis documents of its commands, and that the text of a market state keeps its symbol.
  pub record Laws (v : Server) : Type 0 where
    pub get-set :
        (db : v.Db) (key payload : String) → v.get (v.set db key payload) key ≡ some (some payload)
    pub get-set_other :
        (db : v.Db) (key other payload : String)
        → ¬ (key ≡ other)
        → v.get (v.set db key payload) other ≡ v.get db other
    pub get-sadd :
        (db : v.Db) (key other member : String)
        → ¬ (key ≡ other)
        → v.get (v.sadd db key member) other ≡ v.get db other
    pub smembers-set :
        (db : v.Db) (key other payload : String)
        → ¬ (other ≡ key)
        → v.smembers (v.set db key payload) other ≡ v.smembers db other
    pub smembers-sadd :
        (db : v.Db) (key member : String) (before : List String)
        → v.smembers db key ≡ some before
        → (after : List String) × (v.smembers (v.sadd db key member) key ≡ some after)
          × ((m : String) → Member m after → (m ≡ member) ⊎ Member m before)
    pub smembers-del :
        (db next : v.Db) (key : String) (deleted : ℕ)
        → v.del db (key ∷ []) ≡ some (next, deleted)
        → v.smembers next key ≡ some []
    pub of_json-to_json :
        (state : MarketState) (payload : String)
        → v.to_json state ≡ some payload
        → (read : MarketState) × (v.of_json payload ≡ some read) × (read.symbol ≡ state.symbol)

module _ ⦃x : Externals⦄ ⦃v : Server⦄ where
  open v use {Db, get, smembers, to_json, of_json, set, sadd}

  -- A text is a symbol as `Symbol::new` leaves it.
  abbrev pub IsCanonical : String → Type 0
  IsCanonical raw = new_symbol raw ≡ SymbolResult.ok (record { text = raw })

  -- A registered text is canonical, and a state of its symbol is stored under its key.
  pub record IsRegistered (db : Db) (raw : String) : Type 0 where
    pub canonical : IsCanonical raw
    pub payload : String
    pub state : MarketState
    pub stored : get db (market_state_key (record { text = raw })) ≡ some (some payload)
    pub readable : of_json payload ≡ some state
    pub same : state.symbol.text ≡ raw

  pub record IsConsistent (db : Db) : Type 0 where
    pub members : List String
    pub registered : smembers db symbol_set_key ≡ some members
    pub all_registered : All (IsRegistered db) members

  canonical_symbol-done :
      (raw : String) → IsCanonical raw → canonical_symbol raw ≡ done (record { text = raw })
  unfolding canonical_symbol
  canonical_symbol-done raw h = rw (canonical_symbol, h, eq_refl raw) refl

  abbrev symbol_of : String → Symbol
  symbol_of raw = record { text = raw }

  collect-done :
      (db : Db) (ms : List String)
      → All (IsRegistered db) ms
      → collect canonical_symbol ms ≡ done (map symbol_of ms)
  collect-done db [] h = refl
  collect-done db (m ∷ ms) (hm, h) =
      rw (canonical_symbol-done m hm.canonical, collect-done db ms h) refl

  check_states-done :
      (db : Db) (ss : List Symbol)
      → All (λ s. IsRegistered db s.text) ss
      → check_states db ss ≡ done tt
  unfolding check_states check_payload
  check_states-done db [] h = refl
  check_states-done db (s ∷ ss) (hs, h) =
      rw
        (
          check_states,
          hs.stored,
          check_payload,
          hs.readable,
          ap (λ t. str_eq t s.text) hs.same,
          eq_refl s.text,
        )
        (check_states-done db ss h)

  All-symbols :
      (P : String → Type 0) (ms : List String) → All P ms → All (λ s. P s.text) (map symbol_of ms)
  All-symbols P [] h = tt
  All-symbols P (m ∷ ms) (hm, h) = (hm, All-symbols P ms h)

  length-symbols : (ms : List String) → length (map symbol_of ms) ≡ length ms
  length-symbols [] = refl
  length-symbols (m ∷ ms) = omega (arith, length-symbols ms)

  pub validate-IsConsistent :
      (db : Db) (c : IsConsistent db)
      → validate_market_state_cache true db ≡ done (length c.members)
  unfolding validate_market_state_cache validate_registered
  validate-IsConsistent db c =
      rw
        (
          c.registered,
          collect-done db c.members c.all_registered,
          check_states-done db (sort (map symbol_of c.members)) (
              sort-All (λ s. IsRegistered db s.text) (map symbol_of c.members)
                (All-symbols (IsRegistered db) c.members c.all_registered)),
          length-sort (map symbol_of c.members),
          length-symbols c.members,
        )
        refl
