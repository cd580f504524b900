-- ===== src/Tests/Readers.antt =====
-- Instances of the readers of JSON and of the Redis server, at which the tests run the program. A value
-- is a text or an object of texts.
use signalguard_rs.Common.{
  ℕ, String, Bool-cases, false, Option, none, some, List, [], ◌∷◌, map, any, length, ◌≡◌, ◌⊎◌, refl,
  ap, sym, subst, inl, inr, arith, str_eq, eq_refl, eq_iff, parse_u64, if◌then◌else◌, ℤ, pos,
  negsuc,
}
use signalguard_rs.Json.{Json, View, string, object}
use signalguard_rs.Domain.Symbol.{Symbol}
use signalguard_rs.Exchange.Binance.{Messages}
use signalguard_rs.Storage.Redis.{Server, no_key}
use signalguard_rs.Storage.Redis.Consistent.{Laws, Member}
use signalguard_rs.Tests.Toy.{toy}
use signalguard_rs.Tests.Samples.{market}

pub data Text : Type 0 where
  plain : String → Text
  fields : List (String × String) → Text

abbrev field : String → List (String × String) → Option Text
field name [] = none
field name ((key, value) ∷ rest) =
    let found = field name rest in if str_eq key name then some (plain value) else found

abbrev trade_fields : String → List (String × String)
trade_fields price =
    ("type", "trade")
    ∷ ("symbol", "BTCUSDT")
    ∷ ("exchange", "binance")
    ∷ ("price", price)
    ∷ ("quantity", "2")
    ∷ ("event_time", "90")
    ∷ []

abbrev get_text : Text → String → Option Text
get_text (plain text) name = none
get_text (fields entries) name = field name entries

abbrev view_text : Text → View Text
view_text (plain text) = string text
view_text (fields entries) = object

-- A line is the price of a trade, or `{`.
abbrev line_of : String → Option Text
line_of line = if str_eq line "{" then none else some (fields (trade_fields line))

instance abbrev pub texts : Json
texts = record {
  Value = Text;
  view = view_text;
  get = get_text;
  to_string = λ t. "";
  from_str = line_of;
  decimal_of = parse_u64;
  from_rfc3339 = parse_u64;
}

abbrev millis_of : ℤ → Option ℕ
millis_of (pos n) = some n
millis_of (negsuc n) = none

-- A message is the price of a trade.
instance abbrev pub messages : Messages texts
messages = record {
  stream_message = λ payload. some ("btcusdt@trade", plain payload);
  trade_payload = λ t. elim t [
    | plain price ↦ some (record {
      symbol = "BTCUSDT";
      trade_id = none;
      price = price;
      quantity = "2";
      trade_time = 90;
    })
    | fields entries ↦ none
  ];
  book_ticker_payload = λ t. none;
  timestamp_millis_opt = millis_of;
}

pub record Keys : Type 0 where
  pub values : String → Option String
  pub members : String → List String

abbrev set_key : Keys → String → String → Keys
set_key db key payload = record db {
  values = λ k. if str_eq key k then some payload else db.values k;
}

abbrev add_member : Keys → String → String → Keys
add_member db key member = record db {
  members = λ k. if str_eq key k then member ∷ db.members k else db.members k;
}

abbrev delete_keys : Keys → List String → Option (Keys × ℕ)
delete_keys db keys = some (
  record {
    values = λ k. if any (λ key. str_eq key k) keys then none else db.values k;
    members = λ k. if any (λ key. str_eq key k) keys then [] else db.members k;
  },
  length keys,
)

instance abbrev pub server : Server
server = record {
  Db = Keys;
  key_type = λ db key. no_key;
  set = set_key;
  sadd = add_member;
  get = λ db key. some (db.values key);
  mget = λ db keys. some (map db.values keys);
  smembers = λ db key. some (db.members key);
  del = delete_keys;
  to_json = λ state. some state.symbol.text;
  of_json = λ payload. some (market (record { text = payload }) 0 0 0);
}

other_key : (a b : String) → ¬ (a ≡ b) → str_eq a b ≡ false
other_key a b h = elim (Bool-cases (str_eq a b)) [
  | inl e ↦ absurd (h ((eq_iff a b).0 e))
  | inr e ↦ e
]

same_members :
    (member : String) (xs ys : List String) (m : String)
    → Option.some xs ≡ some ys
    → Member m (member ∷ xs)
    → (m ≡ member) ⊎ Member m ys
same_members member xs ys m h (inl e) = inl e
same_members member xs ys m h (inr k) =
    inr (subst (λ o. elim o [ none ↦ ⊥ | some zs ↦ Member m zs ]) h k)

delete-empty :
    (db next : Keys) (key : String) (n : ℕ)
    → delete_keys db (key ∷ []) ≡ some (next, n)
    → Option.some (next.members key) ≡ some []
delete-empty db next key n h =
    subst (λ o. elim o [ none ↦ Unit | some left ↦ Option.some (left.0.members key) ≡ some [] ]) h
      (rw (eq_refl key) refl)

abbrev symbol_named : String → Symbol
symbol_named text = record { text = text }

same_symbol :
    (s : Symbol) (payload : String) → some s.text ≡ some payload → symbol_named payload ≡ s
same_symbol s payload h = let e : s.text ≡ payload = ground arith in ap symbol_named (sym e)

pub server_laws : Laws server
server_laws = record {
  get-set = λ db key payload. rw (eq_refl key) refl;
  get-set_other = λ db key other payload h. rw (other_key key other h) refl;
  get-sadd = λ db key other member h. refl;
  smembers-set = λ db key other payload h. refl;
  smembers-sadd = λ db key member before h. (
    member ∷ db.members key,
    rw (eq_refl key) refl,
    λ m. same_members member (db.members key) before m h,
  );
  smembers-del = delete-empty;
  of_json-to_json = λ state payload h.
      (market (record { text = payload }) 0 0 0, refl, same_symbol state.symbol payload h);
}
