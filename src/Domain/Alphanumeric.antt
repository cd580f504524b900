-- ===== src/Domain/Alphanumeric.antt =====
-- src/domain/symbol.rs: what a symbol's text can be.
use signalguard_rs.Common.{
  String, ◌≤◌, ◌≡◌, ◌↔◌, ◌⊎◌, refl, true, false, Bool, Bool-cases, inl, inr, arith,
}
use Prim.Native.Char.{Char, code}
use Prim.Native.String.{[], ◌∷◌}
use signalguard_rs.External.{Externals}
use signalguard_rs.Domain.Symbol.{
  Symbol, SymbolResult, ok, empty_symbol, not_alphanumeric, all_alphanumeric, check_symbol,
  new_symbol, to_uppercase, trim_start, trim_end,
}

-- The code of an ASCII digit, capital letter or small letter.
abbrev pub IsAsciiAlphanumeric : Char → Type 0
IsAsciiAlphanumeric c =
    ((48 ≤ code c) × (code c ≤ 57))
    ⊎ ((65 ≤ code c) × (code c ≤ 90))
    ⊎ ((97 ≤ code c) × (code c ≤ 122))

abbrev pub AllAlphanumeric : String → Type 0
AllAlphanumeric [] = Unit
AllAlphanumeric (c ∷ text) = IsAsciiAlphanumeric c × AllAlphanumeric text

all_alphanumeric_iff : (text : String) → (all_alphanumeric text ≡ true) ↔ AllAlphanumeric text
all_alphanumeric_iff [] = (λ h. tt, λ h. refl)
all_alphanumeric_iff (c ∷ text) =
    (λ h. ground (arith, all_alphanumeric_iff text), λ h. ground (arith, all_alphanumeric_iff text))

differs : (b : Bool) → b ≡ false → ¬ (b ≡ true)
differs b h k = ground arith

-- `!str::is_empty`
abbrev pub IsNonempty : String → Type 0
IsNonempty [] = ⊥
IsNonempty (c ∷ text) = Unit

-- The three results of the checks, each with what it says of the text.
abbrev Fits : String → SymbolResult → Type 0
Fits text r =
    ((r ≡ empty_symbol) × (¬ IsNonempty text) × AllAlphanumeric text)
    ⊎ ((r ≡ ok (record { text = text })) × IsNonempty text × AllAlphanumeric text)
    ⊎ ((r ≡ not_alphanumeric text) × IsNonempty text × ¬ AllAlphanumeric text)

Fits-ok :
    (text : String) (r : SymbolResult) (s : Symbol)
    → Fits text r
    → (r ≡ ok s) ↔ ((s.text ≡ text) × IsNonempty s.text × AllAlphanumeric s.text)
Fits-ok text r s fits = (λ h. ground arith, λ h. ground arith)

Fits-empty :
    (text : String) (r : SymbolResult) → Fits text r → (r ≡ empty_symbol) ↔ ¬ IsNonempty text
Fits-empty text r fits = (λ h. ground arith, λ h. ground arith)

Fits-not_alphanumeric :
    (text bad : String) (r : SymbolResult)
    → Fits text r
    → (r ≡ not_alphanumeric bad) ↔ ((bad ≡ text) × ¬ AllAlphanumeric bad)
Fits-not_alphanumeric text bad r fits = (λ h. ground arith, λ h. ground arith)

module _ ⦃x : Externals⦄ where
  -- The text without white space around it, in capitals.
  abbrev pub normalized : String → String
  normalized value = to_uppercase (trim_end (trim_start value))

  check_symbol-Fits : (text : String) → Fits text (check_symbol text)
  check_symbol-Fits [] = inl (refl, λ h. h, tt)
  check_symbol-Fits (c ∷ text) = elim (Bool-cases (all_alphanumeric (c ∷ text))) [
    | inl e ↦ inr (inl (rw e refl, tt, (all_alphanumeric_iff (c ∷ text)).0 e))
    | inr e ↦ inr (
        inr (
          rw e refl,
          tt,
          λ all. differs (all_alphanumeric (c ∷ text)) e ((all_alphanumeric_iff (c ∷ text)).1 all),
        ))
  ]

  -- A symbol is made of a value exactly when its text is the value without white space around it, in
  -- capitals, has at least one character, and has only the codes of ASCII letters and digits. If that
  -- text is empty, and only then, the value is refused as empty; if a character has another code, and
  -- only then, the value is refused with that text.
  pub new_symbol_iff :
      (value : String) (s : Symbol) (bad : String)
      → ((new_symbol value ≡ ok s)
          ↔ ((s.text ≡ normalized value) × IsNonempty s.text × AllAlphanumeric s.text))
        × ((new_symbol value ≡ empty_symbol) ↔ ¬ IsNonempty (normalized value))
        × ((new_symbol value ≡ not_alphanumeric bad)
            ↔ ((bad ≡ normalized value) × ¬ AllAlphanumeric bad))
  unfolding new_symbol
  new_symbol_iff value s bad =
      let fits = check_symbol-Fits (normalized value) in
      (
        Fits-ok (normalized value) (check_symbol (normalized value)) s fits,
        Fits-empty (normalized value) (check_symbol (normalized value)) fits,
        Fits-not_alphanumeric (normalized value) bad (check_symbol (normalized value)) fits,
      )
