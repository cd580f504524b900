-- ===== src/Storage/Redis.antt =====
-- src/storage/redis.rs: the cache of market states. The branches for tests alone, on states in memory,
-- are left out. The server is a parameter.
pub mod Keys
pub mod Consistent
pub mod Writes
use Prim.Native.Nat.{ℕ, ◌+◌}
use text.Mathlib.Text.{is_le}
use Prim.Native.String.{compare}
use signalguard_rs.Common.{
  String, Bool, true, false, Option, none, some, List, [], ◌∷◌, ◌≡◌, ◌≢◌, ◌⊎◌, map, length, ◌==◌,
  str_eq, concat, All, if◌then◌else◌,
}
use signalguard_rs.Common.Fallible.{Fallible, failed, done, ◌>>=◌, ◌>>◌}
use signalguard_rs.External.{Externals}
use signalguard_rs.Domain.Symbol.{Symbol, SymbolResult, new_symbol, symbol_eq}
use signalguard_rs.Domain.MarketState.{MarketState}

-- The messages of invalid data, by what they tell.
pub data InvalidData : Type 0 where
  invalid_symbol not_canonical : String → InvalidData
  no_state malformed_state : Symbol → InvalidData
  embedded_symbol : Symbol → Symbol → InvalidData
  wrong_count : ℕ → ℕ → InvalidData

-- The operation is left out of the errors.
pub data CacheError : Type 0 where
  unavailable redis serialization : CacheError
  invalid_data : InvalidData → CacheError

-- What becomes of a script that the client sends: it is lost on its way, it runs but its reply is
-- lost, or its reply arrives.
pub data Delivery : Type 0 where
  not_sent reply_lost answered : Delivery

-- What `TYPE` answers.
pub data KeyType : Type 0 where
  no_key string_key set_key other_key : KeyType

-- A Redis server, and the texts that serde derives for market states. `none` is an error reply or a
-- lost connection.
module _ ⦃x : Externals⦄ where
  pub record Server : Type 1 where
    pub Db : Type 0
    pub key_type : Db → String → KeyType
    pub set : Db → String → String → Db
    pub sadd : Db → String → String → Db
    pub get : Db → String → Option (Option String)
    pub mget : Db → List String → Option (List (Option String))
    pub smembers : Db → String → Option (List String)
    -- `DEL`, with how many keys there were
    pub del : Db → List String → Option (Db × ℕ)
    pub to_json : MarketState → Option String
    pub of_json : String → Option MarketState

abbrev pub market_state_key_prefix : String
market_state_key_prefix = "signalguard:market_state:"

abbrev pub symbol_set_key : String
symbol_set_key = "signalguard:symbols"

unfoldable pub market_state_key : Symbol → String
market_state_key symbol = concat market_state_key_prefix symbol.text

abbrev pub insert_symbol : Symbol → List Symbol → List Symbol
insert_symbol s [] = s ∷ []
insert_symbol s (t ∷ ts) =
    let rest = insert_symbol s ts in if is_le (compare s.text t.text) then s ∷ t ∷ ts else t ∷ rest

-- `sort`: equal symbols are the same, so that any sort gives the same list.
unfoldable pub sort : List Symbol → List Symbol
sort [] = []
sort (s ∷ ss) = insert_symbol s (sort ss)

-- What an iterator over `Result`s collects: the first error, or all values.
abbrev pub collect :
    {A B : Type 0} → (A → Fallible CacheError B) → List A → Fallible CacheError (List B)
collect f [] = done []
collect f (x ∷ xs) = do y ← f x; ys ← collect f xs; done (y ∷ ys)

-- `map_err` with `redis_error`
abbrev pub served : {A : Type 0} → Option A → Fallible CacheError A
served none = failed redis
served (some a) = done a

module _ ⦃x : Externals⦄ ⦃v : Server⦄ where
  open v use {Db, key_type, set, sadd, get, mget, smembers, del, to_json, of_json}

  -- The checks at the head of `SET_MARKET_STATE_SCRIPT`.
  abbrev pub takes_state : KeyType → KeyType → Bool
  takes_state no_key no_key = true
  takes_state no_key set_key = true
  takes_state string_key no_key = true
  takes_state string_key set_key = true
  takes_state _ _ = false

  -- `SET_MARKET_STATE_SCRIPT`, which the server runs as one step; `none` is its error.
  unfoldable pub set_market_state_script : Db → String → String → String → String → Option Db
  set_market_state_script db state_key symbols_key symbol payload =
      if takes_state (key_type db state_key) (key_type db symbols_key)
      then some (sadd (set db state_key payload) symbols_key symbol)
      else none

  -- What `set_market_state` makes of the result of the script, with whether there is a client.
  abbrev pub invoked : Bool → Delivery → Db → Option Db → Db × Fallible CacheError (Unit {0})
  invoked false delivery db result = (db, failed unavailable)
  invoked true not_sent db result = (db, failed redis)
  invoked true reply_lost db none = (db, failed redis)
  invoked true reply_lost db (some next) = (next, failed redis)
  invoked true answered db none = (db, failed redis)
  invoked true answered db (some next) = (next, done tt)

  unfoldable pub set_market_state :
      Bool → Delivery → Db → MarketState → Db × Fallible CacheError (Unit {0})
  unfolding set_market_state_script market_state_key
  set_market_state client delivery db state = elim (to_json state) [
    | none ↦ (db, failed serialization)
    | some payload ↦ invoked client delivery db (
        set_market_state_script db (market_state_key state.symbol) symbol_set_key state.symbol.text
          payload)
  ]

  abbrev pub decoded : Option String → Fallible CacheError (Option MarketState)
  decoded none = done none
  decoded (some payload) = elim (of_json payload) [
    | none ↦ failed serialization
    | some state ↦ done (some state)
  ]

  unfoldable pub get_market_state : Bool → Db → Symbol → Fallible CacheError (Option MarketState)
  unfolding market_state_key
  get_market_state client db symbol =
      if client then (served (get db (market_state_key symbol)) >>= decoded) else failed unavailable

  unfoldable pub validate_market_state_symbol :
      Symbol → MarketState → Fallible CacheError MarketState
  validate_market_state_symbol requested state =
      if symbol_eq state.symbol requested
      then done state
      else failed (invalid_data (embedded_symbol requested state.symbol))

  unfoldable pub deserialize_for_requested_symbol :
      Symbol → String → Fallible CacheError MarketState
  unfolding validate_market_state_symbol
  deserialize_for_requested_symbol requested payload = elim (of_json payload) [
    | none ↦ failed (invalid_data (malformed_state requested))
    | some state ↦ validate_market_state_symbol requested state
  ]

  -- One element of the result of `get_market_states`.
  unfoldable pub requested_state :
      Symbol × Option String → Fallible CacheError (Symbol × Option MarketState)
  unfolding deserialize_for_requested_symbol
  requested_state (symbol, none) = done (symbol, none)
  requested_state (symbol, some payload) = do
    state ← deserialize_for_requested_symbol symbol payload
    done (symbol, some state)

  abbrev pub zip : {A B : Type 0} → List A → List B → List (A × B)
  zip (x ∷ xs) (y ∷ ys) = (x, y) ∷ zip xs ys
  zip _ _ = []

  abbrev pub bulk_states :
      Bool → Db → List Symbol → Fallible CacheError (List (Symbol × Option MarketState))
  bulk_states client db symbols =
      if client
      then (served (mget db (map market_state_key symbols)) >>= λ payloads.
          if length payloads == length symbols
          then collect requested_state (zip symbols payloads)
          else failed (invalid_data (wrong_count (length payloads) (length symbols))))
      else failed unavailable

  unfoldable pub get_market_states :
      Bool → Db → List Symbol → Fallible CacheError (List (Symbol × Option MarketState))
  get_market_states client db [] = done []
  get_market_states client db (symbol ∷ symbols) = bulk_states client db (symbol ∷ symbols)

  abbrev pub listed_symbol : String → Fallible CacheError Symbol
  listed_symbol raw = elim (new_symbol raw) [
    | SymbolResult.ok symbol ↦ done symbol
    | _ ↦ failed (invalid_data (invalid_symbol raw))
  ]

  -- The part of `list_symbols` behind the connection.
  abbrev pub read_symbols : Db → Fallible CacheError (List Symbol)
  read_symbols db = do
    raw_symbols ← served (smembers db symbol_set_key)
    symbols ← collect listed_symbol raw_symbols
    done (sort symbols)

  unfoldable pub list_symbols : Bool → Db → Fallible CacheError (List Symbol)
  list_symbols client db = if client then read_symbols db else failed unavailable

  -- The first closure of `validate_market_state_cache`.
  unfoldable pub canonical_symbol : String → Fallible CacheError Symbol
  canonical_symbol raw = elim (new_symbol raw) [
    | SymbolResult.ok symbol ↦
        if str_eq raw symbol.text then done symbol else failed (invalid_data (not_canonical raw))
    | _ ↦ failed (invalid_data (invalid_symbol raw))
  ]

  -- The checks of the loop of `validate_market_state_cache` on what it has read.
  unfoldable pub check_payload : Symbol → Option String → Fallible CacheError (Unit {0})
  check_payload symbol none = failed (invalid_data (no_state symbol))
  check_payload symbol (some payload) = elim (of_json payload) [
    | none ↦ failed (invalid_data (malformed_state symbol))
    | some state ↦
        if str_eq state.symbol.text symbol.text
        then done tt
        else failed (invalid_data (embedded_symbol symbol state.symbol))
  ]

  -- The loop of `validate_market_state_cache`.
  unfoldable pub check_states : Db → List Symbol → Fallible CacheError (Unit {0})
  unfolding check_payload market_state_key
  check_states db [] = done tt
  check_states db (symbol ∷ symbols) = do
    payload ← served (get db (market_state_key symbol))
    check_payload symbol payload
    check_states db symbols

  -- The part of `validate_market_state_cache` behind the connection.
  unfoldable pub validate_registered : Db → Fallible CacheError ℕ
  validate_registered db = do
    raw_symbols ← served (smembers db symbol_set_key)
    symbols ← collect canonical_symbol raw_symbols
    check_states db (sort symbols)
    done (length (sort symbols))

  unfoldable pub validate_market_state_cache : Bool → Db → Fallible CacheError ℕ
  unfolding validate_registered
  validate_market_state_cache client db =
      if client then validate_registered db else failed unavailable

  -- The loop of `clear_market_state_cache`, on what its scans answer up to the one that ends it.
  unfoldable pub delete_batches : Db → ℕ → List (Option (List String)) → Db × Fallible CacheError ℕ
  delete_batches db cleared_keys [] = (db, done cleared_keys)
  delete_batches db cleared_keys (none ∷ batches) = (db, failed redis)
  delete_batches db cleared_keys (some [] ∷ batches) = delete_batches db cleared_keys batches
  delete_batches db cleared_keys (some (key ∷ keys) ∷ batches) = elim (del db (key ∷ keys)) [
    | none ↦ (db, failed redis)
    | some (next, deleted) ↦ delete_batches next (cleared_keys + deleted) batches
  ]

  -- The end of `clear_market_state_cache`.
  abbrev pub delete_symbols : Db → Fallible CacheError ℕ → Db × Fallible CacheError ℕ
  delete_symbols db (failed error) = (db, failed error)
  delete_symbols db (done cleared_keys) = elim (del db (symbol_set_key ∷ [])) [
    | none ↦ (db, failed redis)
    | some (next, deleted) ↦ (next, done (cleared_keys + deleted))
  ]

  unfoldable pub clear_market_state_cache :
      Bool → Db → List (Option (List String)) → Db × Fallible CacheError ℕ
  unfolding delete_batches
  clear_market_state_cache client db batches =
      if client
      then (let (next, cleared) = delete_batches db 0 batches in delete_symbols next cleared)
      else (db, failed unavailable)
