-- ===== src/Domain/Symbol.antt =====
-- src/domain/symbol.rs
use Prim.Native.Char.{Char, code}
use Prim.Native.String.{[], ◌∷◌}
use signalguard_rs.Common.{String, Bool, true, not, ◌&&◌, ◌||◌, leb, str_eq, if◌then◌else◌}
use signalguard_rs.External.{Externals}

pub record Symbol : Type 0 where
  pub text : String

-- The derived `==` of symbols.
abbrev pub symbol_eq : Symbol → Symbol → Bool
symbol_eq a b = str_eq a.text b.text

pub data SymbolResult : Type 0 where
  ok : Symbol → SymbolResult
  empty_symbol : SymbolResult
  not_alphanumeric : String → SymbolResult

-- `char::is_ascii_alphanumeric`
abbrev pub is_ascii_alphanumeric : Char → Bool
is_ascii_alphanumeric c =
    (leb 48 (code c) && leb (code c) 57)
    || (leb 65 (code c) && leb (code c) 90)
    || (leb 97 (code c) && leb (code c) 122)

-- `str::chars().all(..)` of the second check.
abbrev pub all_alphanumeric : String → Bool
all_alphanumeric [] = true
all_alphanumeric (c ∷ s) = is_ascii_alphanumeric c && all_alphanumeric s

abbrev concat : String → String → String
concat [] t = t
concat (c ∷ s) t = c ∷ concat s t

module _ ⦃x : Externals⦄ where
  open x use {is_whitespace, uppercase}

  abbrev pub trim_start : String → String
  trim_start [] = []
  trim_start (c ∷ s) = let rest = trim_start s in if is_whitespace c then rest else c ∷ s

  -- White space is dropped from the end: a character goes if all behind it went.
  abbrev pub trim_end : String → String
  trim_end [] = []
  trim_end (c ∷ s) =
      let rest = trim_end s in
      elim rest [ [] ↦ if is_whitespace c then [] else c ∷ [] | d ∷ t ↦ c ∷ d ∷ t ]

  abbrev pub to_uppercase : String → String
  to_uppercase [] = []
  to_uppercase (c ∷ s) = concat (uppercase c) (to_uppercase s)

  -- The checks of `Symbol::new` on the normalized text.
  abbrev pub check_symbol : String → SymbolResult
  check_symbol [] = empty_symbol
  check_symbol (c ∷ s) =
      if not (all_alphanumeric (c ∷ s))
      then not_alphanumeric (c ∷ s)
      else ok (record { text = c ∷ s })

  -- `Symbol::new`
  unfoldable pub new_symbol : String → SymbolResult
  new_symbol value = check_symbol (to_uppercase (trim_end (trim_start value)))
