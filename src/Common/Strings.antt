-- ===== src/Common/Strings.antt =====
-- Operations of Rust's `str` that the program uses.
use Prim.Native.Nat.{ℕ, ◌+◌, ◌-◌, ◌*◌}
use Prim.Native.Char.{Char, code}
use Prim.Native.String.{String, [], ◌∷◌, char_at}
use mathlib.Core.Path.{◌≡◌, refl, ap, sym, ◌∙◌}
use mathlib.Core.Bool.{Bool, true, false, ◌&&◌, ◌||◌}
use mathlib.Core.Option.{Option, none, some}
use mathlib.Core.List.{List, [], ◌∷◌}
use native.Mathlib.Omega.{arith}
use text.Mathlib.Text.{◌==◌ as str_eq}
use text.Mathlib.TextPositions.{eq_refl}
use text.Mathlib.TextEquality.{eq_iff}
use mathlib.Core.Logic.{inl, inr}
use signalguard_rs.Common.Tests.{ltb, leb, ◌==◌, Bool-cases, if◌then◌else◌}
use signalguard_rs.Common.Words.{u64_mod}

abbrev pub concat : String → String → String
concat [] t = t
concat (c ∷ s) t = c ∷ concat s t

-- `str::is_empty`
abbrev pub is_empty_str : String → Bool
is_empty_str [] = true
is_empty_str (c ∷ s) = false

-- `str::ends_with`
abbrev pub ends_with : String → String → Bool
ends_with [] t = str_eq [] t
ends_with (c ∷ s) t = str_eq (c ∷ s) t || ends_with s t

-- `str::starts_with`
abbrev pub starts_with : String → String → Bool
starts_with s [] = true
starts_with [] (d ∷ t) = false
starts_with (c ∷ s) (d ∷ t) = str_eq (c ∷ []) (d ∷ []) && starts_with s t

-- `str::contains`
abbrev pub contains : String → String → Bool
contains [] t = starts_with [] t
contains (c ∷ s) t = starts_with (c ∷ s) t || contains s t

-- `char::to_ascii_lowercase`
abbrev pub char_to_ascii_lowercase : Char → Char
char_to_ascii_lowercase c =
    if leb 65 (code c) && leb (code c) 90
    then char_at "abcdefghijklmnopqrstuvwxyz" (code c - 65)
    else c

-- `str::to_ascii_lowercase`
abbrev pub to_ascii_lowercase : String → String
to_ascii_lowercase [] = []
to_ascii_lowercase (c ∷ s) = char_to_ascii_lowercase c ∷ to_ascii_lowercase s

-- The digits of `from_str` of an unsigned type with this many values, behind a number: the first that
-- is none, or that takes the number out of range, makes the text no number.
abbrev pub parse_digits : ℕ → ℕ → String → Option ℕ
parse_digits values n [] = some n
parse_digits values n (c ∷ s) =
    let next = n * 10 + (code c - 48) in
    let rest = parse_digits values next s in
    if leb 48 (code c) && leb (code c) 57 && ltb next values then rest else none

abbrev pub parse_number : ℕ → String → Option ℕ
parse_number values [] = none
parse_number values (c ∷ s) = parse_digits values 0 (c ∷ s)

-- `str::parse` for an unsigned type: a sign `+` may stand in front of the digits.
abbrev pub parse_unsigned : ℕ → String → Option ℕ
parse_unsigned values [] = none
parse_unsigned values (c ∷ s) =
    if code c == 43 then parse_number values s else parse_number values (c ∷ s)

-- `str::parse::<u64>`
abbrev pub parse_u64 : String → Option ℕ
parse_u64 s = parse_unsigned u64_mod s

abbrev prepend_char : Char → List String → List String
prepend_char c [] = (c ∷ []) ∷ []
prepend_char c (t ∷ ts) = (c ∷ t) ∷ ts

-- `str::split(',')`
abbrev pub split_comma : String → List String
split_comma [] = [] ∷ []
split_comma (c ∷ s) =
    let rest = split_comma s in if code c == 44 then [] ∷ rest else prepend_char c rest

-- The number of the last character.
abbrev pub last_of : String → ℕ
last_of [] = 0
last_of (c ∷ []) = code c
last_of (c ∷ d ∷ s) = last_of (d ∷ s)

last_of-concat : (s : String) (c : Char) (t : String) → last_of (concat s (c ∷ t)) ≡ last_of (c ∷ t)
last_of-concat [] c t = refl
last_of-concat (d ∷ []) c t = refl
last_of-concat (d ∷ e ∷ s) c t = last_of-concat (e ∷ s) c t

not_empty : (s : String) (c : Char) (t : String) → is_empty_str s ≡ true → ¬ (s ≡ c ∷ t)
not_empty s c t e h = let k : true ≡ false = sym e ∙ ap is_empty_str h in ground arith

or-right : (a b : Bool) → a ≡ false → (a || b) ≡ true → b ≡ true
or-right a b h k = ground arith

ends_with-last :
    (s t : String) (c : Char) → ends_with s (c ∷ t) ≡ true → last_of s ≡ last_of (c ∷ t)
ends_with-last [] t c h = ap last_of ((eq_iff [] (c ∷ t)).0 h)
ends_with-last (d ∷ []) t c h = elim (Bool-cases (str_eq (d ∷ []) (c ∷ t))) [
  | inl same ↦ ap last_of ((eq_iff (d ∷ []) (c ∷ t)).0 same)
  | inr other ↦ absurd (
      not_empty [] c t refl
        ((eq_iff [] (c ∷ t)).0 (or-right (str_eq (d ∷ []) (c ∷ t)) (str_eq [] (c ∷ t)) other h)))
]
ends_with-last (d ∷ e ∷ s) t c h = elim (Bool-cases (str_eq (d ∷ e ∷ s) (c ∷ t))) [
  | inl same ↦ ap last_of ((eq_iff (d ∷ e ∷ s) (c ∷ t)).0 same)
  | inr other ↦
      ends_with-last (e ∷ s) t c
        (or-right (str_eq (d ∷ e ∷ s) (c ∷ t)) (ends_with (e ∷ s) (c ∷ t)) other h)
]

-- A text with another last character than a suffix does not end with it.
pub ends_with-concat_other :
    (s t u : String)
    → is_empty_str t ≡ false
    → is_empty_str u ≡ false
    → ¬ (last_of t ≡ last_of u)
    → ends_with (concat s t) u ≡ false
ends_with-concat_other s [] u h k other = ground arith
ends_with-concat_other s (c ∷ t) [] h k other = ground arith
ends_with-concat_other s (c ∷ t) (d ∷ u) h k other =
    elim (Bool-cases (ends_with (concat s (c ∷ t)) (d ∷ u))) [
      | inl ends ↦
          absurd (other (sym (last_of-concat s c t) ∙ ends_with-last (concat s (c ∷ t)) u d ends))
      | inr e ↦ e
    ]

ends_with_self : (t : String) → ends_with t t ≡ true
ends_with_self [] = eq_refl []
ends_with_self (c ∷ t) = rw (eq_refl (c ∷ t)) refl

pub ends_with-concat : (s t : String) → ends_with (concat s t) t ≡ true
ends_with-concat [] t = ends_with_self t
ends_with-concat (c ∷ s) t = ground (arith, ends_with-concat s t)

pub to_ascii_lowercase-concat :
    (s t : String)
    → to_ascii_lowercase (concat s t) ≡ concat (to_ascii_lowercase s) (to_ascii_lowercase t)
to_ascii_lowercase-concat [] t = refl
to_ascii_lowercase-concat (c ∷ s) t =
    ap (λ u. char_to_ascii_lowercase c ∷ u) (to_ascii_lowercase-concat s t)
