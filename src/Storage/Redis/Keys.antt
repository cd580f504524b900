-- ===== src/Storage/Redis/Keys.antt =====
-- src/storage/redis.rs: the keys of the cache, and the order of its symbols.
use Prim.Native.Char.{code}
use Prim.Native.Nat.{ℕ, zero, suc}
use Prim.Native.String.{compare}
use text.Mathlib.Text.{is_le}
use signalguard_rs.Common.{
  String, Bool-cases, List, [], ◌∷◌, ◌≡◌, refl, ap, inl, inr, arith, All, length,
}
use signalguard_rs.Domain.Symbol.{Symbol}
use signalguard_rs.Storage.Redis.{market_state_key, symbol_set_key, sort, insert_symbol}

-- The text without its first characters.
abbrev skip : ℕ → String → String
skip zero s = s
skip (suc n) Prim.Native.String.[] = ""
skip (suc n) (Prim.Native.String.◌∷◌ c s) = skip n s

abbrev first_code : String → ℕ
first_code Prim.Native.String.[] = 0
first_code (Prim.Native.String.◌∷◌ c s) = code c

-- Two symbols with the same key have the same text.
pub market_state_key_injective :
    (s t : Symbol) → market_state_key s ≡ market_state_key t → s.text ≡ t.text
unfolding market_state_key
market_state_key_injective s t h = ap (skip 25) h

-- No state stands under the key of the set of symbols.
pub market_state_key_other : (s : Symbol) → ¬ (symbol_set_key ≡ market_state_key s)
unfolding market_state_key
market_state_key_other s h =
    let e : first_code (skip 12 symbol_set_key) ≡ first_code (skip 12 (market_state_key s)) =
      ap (λ k. first_code (skip 12 k)) h in
    ground arith

insert_symbol-All :
    (P : Symbol → Type 0) (s : Symbol) (ss : List Symbol)
    → P s
    → All P ss
    → All P (insert_symbol s ss)
insert_symbol-All P s [] hs h = (hs, tt)
insert_symbol-All P s (t ∷ ts) hs (ht, h) = elim (Bool-cases (is_le (compare s.text t.text))) [
  | inl e ↦ rw e (hs, (ht, h))
  | inr e ↦ rw e (ht, insert_symbol-All P s ts hs h)
]

pub sort-All : (P : Symbol → Type 0) (ss : List Symbol) → All P ss → All P (sort ss)
unfolding sort
sort-All P [] h = tt
sort-All P (s ∷ ss) (hs, h) = insert_symbol-All P s (sort ss) hs (sort-All P ss h)

length-insert_symbol :
    (s : Symbol) (ss : List Symbol) → length (insert_symbol s ss) ≡ suc (length ss)
length-insert_symbol s [] = refl
length-insert_symbol s (t ∷ ts) = elim (Bool-cases (is_le (compare s.text t.text))) [
  | inl e ↦ rw e refl
  | inr e ↦ rw e (ap suc (length-insert_symbol s ts))
]

pub length-sort : (ss : List Symbol) → length (sort ss) ≡ length ss
unfolding sort
length-sort [] = refl
length-sort (s ∷ ss) = omega (arith, length-insert_symbol s (sort ss), length-sort ss)
