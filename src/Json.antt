-- ===== src/Json.antt =====
-- What the program takes from serde_json, and from the readers of numbers and times of rust_decimal
-- and chrono, as one parameter of the model; with src/depth_json.rs.
use signalguard_rs.Common.{ℕ, String, Bool, Option, none, some, List, [], ◌∷◌}
use signalguard_rs.Common.Fallible.{Fallible, failed, done}
use signalguard_rs.External.{Externals, Decimal, DateTime}

-- How serde_json shows a value. A number is its `as_u64`.
pub data View (V : Type 0) : Type 0 where
  null object : View V
  bool : Bool → View V
  number : Option ℕ → View V
  string : String → View V
  array : List V → View V

module _ ⦃x : Externals⦄ where
  pub record Json : Type 1 where
    pub Value : Type 0
    pub view : Value → View Value
    -- `Value::get` with a name
    pub get : Value → String → Option Value
    -- `Display` for values
    pub to_string : Value → String
    -- `serde_json::from_str::<Value>`; `none` is its error
    pub from_str : String → Option Value
    -- `str::parse::<Decimal>`
    pub decimal_of : String → Option Decimal
    -- `DateTime::parse_from_rfc3339`, then `with_timezone(&Utc)`
    pub from_rfc3339 : String → Option DateTime

module _ ⦃x : Externals⦄ ⦃j : Json⦄ where
  open j use {Value, view}

  -- `Value::as_str`
  abbrev pub as_str : Value → Option String
  as_str value = elim (view value) [ string text ↦ some text | _ ↦ none ]

  -- The two elements of `parse_depth_level_pair_strings`, if there are two.
  abbrev pub pair_of : List Value → Option (String × String)
  pair_of (price ∷ quantity ∷ []) = elim (as_str price) [
    | none ↦ none
    | some price_text ↦ elim (as_str quantity) [
      | none ↦ none
      | some quantity_text ↦ some (price_text, quantity_text)
    ]
  ]
  pair_of _ = none

  -- `parse_depth_level_pair_strings`
  unfoldable pub parse_depth_level_pair_strings :
      {E : Type 0} → Value → E → Fallible E (String × String)
  parse_depth_level_pair_strings level invalid_shape = elim (view level) [
    | array values ↦ elim (pair_of values) [ some pair ↦ done pair | none ↦ failed invalid_shape ]
    | _ ↦ failed invalid_shape
  ]
