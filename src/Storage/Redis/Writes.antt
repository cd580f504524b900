-- ===== src/Storage/Redis/Writes.antt =====
-- src/storage/redis.rs: the cache stays valid, whatever is written to it.
use Prim.Native.Nat.{ℕ}
use signalguard_rs.Common.{
  String, Bool, Bool-cases, true, false, Option, none, some, Option-cases, List, [], ◌∷◌, ◌≡◌, ◌⊎◌,
  refl, ap, sym, subst, ◌∙◌, inl, inr, arith, All, str_eq, eq_iff,
}
use signalguard_rs.Common.Fallible.{Fallible, failed, done}
use signalguard_rs.External.{Externals}
use signalguard_rs.Domain.Symbol.{Symbol}
use signalguard_rs.Domain.MarketState.{MarketState}
use signalguard_rs.Storage.Redis.{
  Server, delete_symbols, delete_batches, clear_market_state_cache, CacheError, market_state_key,
  symbol_set_key, set_market_state_script, Delivery, not_sent, reply_lost, answered, invoked,
  set_market_state, get_market_state,
}
use signalguard_rs.Storage.Redis.Keys.{market_state_key_injective, market_state_key_other}
use signalguard_rs.Storage.Redis.Consistent.{
  not_both, All-Member, Member-All, Laws, IsCanonical, IsRegistered, IsConsistent,
}

module _ ⦃x : Externals⦄ ⦃v : Server⦄ where
  open v use {Db, to_json, of_json}

  -- Writes in order, each with what becomes of its script.
  abbrev pub set_all : Bool → Db → List (Delivery × MarketState) → Db
  set_all client db [] = db
  set_all client db ((delivery, state) ∷ writes) =
      set_all client (set_market_state client delivery db state).0 writes

  -- A read of the symbol of a state finds what the text of that state says, of the same symbol.
  pub record IsReadBack (db : Db) (state : MarketState) : Type 0 where
    pub payload : String
    pub read : MarketState
    pub printed : to_json state ≡ some payload
    pub readable : of_json payload ≡ some read
    pub found : get_market_state true db state.symbol ≡ done (some read)
    pub same : read.symbol ≡ state.symbol

module _ ⦃x : Externals⦄ ⦃v : Server⦄ (laws : Laws v) where
  open v use {Db, key_type, del, get, smembers, to_json, of_json, set, sadd}

  -- The database behind a script that has run.
  abbrev written : Db → Symbol → String → Db
  written db symbol payload =
      sadd (set db (market_state_key symbol) payload) symbol_set_key symbol.text

  get-written_same :
      (db : Db) (symbol : Symbol) (payload : String)
      → get (written db symbol payload) (market_state_key symbol) ≡ some (some payload)
  get-written_same db symbol payload =
      laws.get-sadd (set db (market_state_key symbol) payload) symbol_set_key
        (market_state_key symbol) symbol.text (market_state_key_other symbol)
      ∙ laws.get-set db (market_state_key symbol) payload

  get-written_other :
      (db : Db) (symbol other : Symbol) (payload : String)
      → ¬ (symbol.text ≡ other.text)
      → get (written db symbol payload) (market_state_key other) ≡ get db (market_state_key other)
  get-written_other db symbol other payload h =
      laws.get-sadd (set db (market_state_key symbol) payload) symbol_set_key
        (market_state_key other) symbol.text (market_state_key_other other)
      ∙ laws.get-set_other db (market_state_key symbol) (market_state_key other) payload
          (λ e. h (market_state_key_injective symbol other e))

  written-IsRegistered :
      (db : Db) (state : MarketState) (payload : String)
      → IsCanonical state.symbol.text
      → to_json state ≡ some payload
      → IsRegistered (written db state.symbol payload) state.symbol.text
  written-IsRegistered db state payload canonical printed =
      let (read, readable, same) = laws.of_json-to_json state payload printed in
      record {
        canonical = canonical;
        payload = payload;
        state = read;
        stored = get-written_same db state.symbol payload;
        readable = readable;
        same = ap (λ s. s.text) same;
      }

  -- Equal or not, by the test on texts.
  text_cases : (a b : String) → (a ≡ b) ⊎ (¬ (a ≡ b))
  text_cases a b = elim (Bool-cases (str_eq a b)) [
    | inl e ↦ inl ((eq_iff a b).0 e)
    | inr e ↦ inr (λ h. absurd (not_both (str_eq a b) ((eq_iff a b).1 h) e))
  ]

  written-keeps :
      (db : Db) (state : MarketState) (payload raw : String)
      → IsCanonical state.symbol.text
      → to_json state ≡ some payload
      → IsRegistered db raw
      → IsRegistered (written db state.symbol payload) raw
  written-keeps db state payload raw canonical printed r = elim (text_cases state.symbol.text raw) [
    | inl e ↦
        subst (IsRegistered (written db state.symbol payload)) e
          (written-IsRegistered db state payload canonical printed)
    | inr other ↦ record {
      canonical = r.canonical;
      payload = r.payload;
      state = r.state;
      stored = get-written_other db state.symbol (record { text = raw }) payload other ∙ r.stored;
      readable = r.readable;
      same = r.same;
    }
  ]

  written-IsConsistent :
      (db : Db) (state : MarketState) (payload : String)
      → IsCanonical state.symbol.text
      → to_json state ≡ some payload
      → IsConsistent db
      → IsConsistent (written db state.symbol payload)
  written-IsConsistent db state payload canonical printed c =
      let key = market_state_key state.symbol in
      let (after, listed, from) =
        laws.smembers-sadd (set db key payload) symbol_set_key state.symbol.text c.members (
          laws.smembers-set db key symbol_set_key payload (market_state_key_other state.symbol)
          ∙ c.registered) in
      record {
        members = after;
        registered = listed;
        all_registered = All-Member (IsRegistered (written db state.symbol payload)) after (λ m k.
            elim (from m k) [
              | inl e ↦
                  subst (IsRegistered (written db state.symbol payload)) (sym e)
                    (written-IsRegistered db state payload canonical printed)
              | inr old ↦
                  written-keeps db state payload m canonical printed
                    (Member-All (IsRegistered db) c.members m c.all_registered old)
            ]);
      }

  invoked-IsConsistent :
      (client : Bool) (delivery : Delivery) (db : Db) (result : Option Db)
      → IsConsistent db
      → ((next : Db) → result ≡ some next → IsConsistent next)
      → IsConsistent (invoked client delivery db result).0
  invoked-IsConsistent false delivery db result c n = c
  invoked-IsConsistent true not_sent db result c n = c
  invoked-IsConsistent true reply_lost db none c n = c
  invoked-IsConsistent true reply_lost db (some next) c n = n next refl
  invoked-IsConsistent true answered db none c n = c
  invoked-IsConsistent true answered db (some next) c n = n next refl

  script-written :
      (db next : Db) (symbol : Symbol) (payload : String)
      → set_market_state_script db (market_state_key symbol) symbol_set_key symbol.text payload
        ≡ some next
      → written db symbol payload ≡ next
  unfolding set_market_state_script
  script-written db next symbol payload h = ground arith

  set_market_state-IsConsistent :
      (client : Bool) (delivery : Delivery) (db : Db) (state : MarketState)
      → IsCanonical state.symbol.text
      → IsConsistent db
      → IsConsistent (set_market_state client delivery db state).0
  unfolding set_market_state
  set_market_state-IsConsistent client delivery db state canonical c =
      elim (Option-cases (to_json state)) [
        | inl e ↦ rw (set_market_state, e) c
        | inr (payload, e) ↦
            rw (set_market_state, e)
              (invoked-IsConsistent client delivery db _ c (λ next h.
                subst IsConsistent (script-written db next state.symbol payload h)
                  (written-IsConsistent db state payload canonical e c)))
      ]

  delete_symbols-IsConsistent :
      (db next : Db) (so_far : Fallible CacheError ℕ) (cleared_keys : ℕ)
      → delete_symbols db so_far ≡ (next, done cleared_keys)
      → IsConsistent next
  delete_symbols-IsConsistent db next (failed error) cleared_keys h = ground arith
  delete_symbols-IsConsistent db next (done so_far) cleared_keys h =
      elim (Option-cases (del db (symbol_set_key ∷ []))) [
        | inl e ↦ ground arith
        | inr ((left, deleted), e) ↦ record {
          members = [];
          registered = laws.smembers-del db next symbol_set_key deleted (ground arith);
          all_registered = tt;
        }
      ]

  -- A cache that has been cleared is consistent, whatever was in it.
  pub clear-IsConsistent :
      (db : Db) (batches : List (Option (List String))) (cleared_keys : ℕ)
      → (clear_market_state_cache true db batches).1 ≡ done cleared_keys
      → IsConsistent (clear_market_state_cache true db batches).0
  unfolding clear_market_state_cache
  clear-IsConsistent db batches cleared_keys h =
      delete_symbols-IsConsistent (delete_batches db 0 batches).0 _ (delete_batches db 0 batches).1
        cleared_keys (ground arith)

  pub set_all-IsConsistent :
      (client : Bool) (db : Db) (writes : List (Delivery × MarketState))
      → All (λ w. IsCanonical w.1.symbol.text) writes
      → IsConsistent db
      → IsConsistent (set_all client db writes)
  set_all-IsConsistent client db [] h c = c
  set_all-IsConsistent client db ((delivery, state) ∷ writes) (canonical, h) c =
      set_all-IsConsistent client (set_market_state client delivery db state).0 writes h
        (set_market_state-IsConsistent client delivery db state canonical c)

  pub get_market_state-same :
      (db : Db) (state : MarketState)
      → (set_market_state true answered db state).1 ≡ done tt
      → IsReadBack (set_market_state true answered db state).0 state
  unfolding set_market_state set_market_state_script get_market_state
  get_market_state-same db state h = elim (Option-cases (to_json state)) [
    | inl e ↦ ground arith
    | inr (payload, e) ↦
        let (read, readable, same) = laws.of_json-to_json state payload e in
        record {
          payload = payload;
          read = read;
          printed = e;
          readable = readable;
          found = ground (arith, readable, e, get-written_same db state.symbol payload);
          same = same;
        }
  ]

  get_market_state-other :
      (client : Bool) (delivery : Delivery) (db : Db) (state : MarketState) (other : Symbol)
      → ¬ (state.symbol.text ≡ other.text)
      → get_market_state client (set_market_state client delivery db state).0 other
        ≡ get_market_state client db other
  unfolding set_market_state set_market_state_script get_market_state
  get_market_state-other client delivery db state other differs =
      elim (Option-cases (to_json state)) [
        | inl e ↦ ground (arith, e)
        | inr (payload, e) ↦
            ground (arith, e, get-written_other db state.symbol other payload differs)
      ]

  -- Once a write has been answered without an error, a read of its symbol finds the state that serde
  -- reads from the text of the state written, and it is of the same symbol; and no write, whatever
  -- becomes of it, changes what is read for a symbol of another text.
  pub get_market_state-set_market_state :
      (db : Db) (state : MarketState)
      → ((set_market_state true answered db state).1 ≡ done tt
          → IsReadBack (set_market_state true answered db state).0 state)
        × ((client : Bool) (delivery : Delivery) (other : Symbol)
            → ¬ (state.symbol.text ≡ other.text)
            → get_market_state client (set_market_state client delivery db state).0 other
              ≡ get_market_state client db other)
  get_market_state-set_market_state db state = (
    get_market_state-same db state,
    λ client delivery other. get_market_state-other client delivery db state other,
  )
