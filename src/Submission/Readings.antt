-- ===== src/Submission/Readings.antt =====
-- The cells of a parsed OUT file as common/integrations/appointments/inspection-result.mapper.ts reads
-- them. A number is kept as the numeral that `parseFloat` accepts; rounding to a double and the range of
-- doubles are not modelled.
use ivis_backend.Base.{
  length, ℕ, ◌+◌, ◌*◌, ◌-◌, ◌==◌, Bool, true, false, ◌||◌, not, Option, none, some, [], ◌∷◌, ◌++◌,
  keep, any, Text, text, text_eq, trim, to_lower, to_upper, is_space, entry_get, if◌then◌else◌,
}
use ivis_backend.Exchange.Ini.{Ini}
use ivis_backend.Exchange.Names.{is_digit}

-- `sections[section]?.[key]?.trim()`
abbrev pub cell : Ini → Text → Text → Option Text
cell sections section key = elim (entry_get section sections) [
  | none ↦ none
  | some entries ↦ elim (entry_get key entries) [ none ↦ none | some raw ↦ some (trim raw) ]
]

-- `EMPTY_MARKERS.has(raw.toLowerCase())`
unfoldable pub is_empty_marker : Text → Bool
is_empty_marker raw =
    any (text_eq (to_lower raw))
      ([] ∷ text "-" ∷ text "--" ∷ text "---" ∷ text "----" ∷ text "n/a" ∷ text "na" ∷ [])

-- The value `± mantissa · 10 ^ (± exponent - scale)`.
pub record Numeral : Type 0 where
  pub negative : Bool
  pub mantissa : ℕ
  pub scale : ℕ
  pub negative_exponent : Bool
  pub exponent : ℕ

-- The digits at the front, and the text behind them.
abbrev pub span_digits : Text → Text × Text
span_digits [] = ([], [])
span_digits (c ∷ s) =
    let (front, rest) = span_digits s in if is_digit c then (c ∷ front, rest) else ([], c ∷ s)

abbrev pub number_onto : ℕ → Text → ℕ
number_onto n [] = n
number_onto n (c ∷ s) = number_onto (10 * n + (c - 48)) s

-- `Number(s)` of digits.
abbrev pub number_of : Text → ℕ
number_of s = number_onto 0 s

abbrev pub sign_of : Text → Bool × Text
sign_of [] = (false, [])
sign_of (c ∷ s) = if c == 45 then (true, s) else if c == 43 then (false, s) else (false, c ∷ s)

abbrev pub exponent_digits : Bool × Text → Bool × ℕ
exponent_digits (negative, s) = (negative, number_of (span_digits s).0)

-- An exponent counts where a digit follows; without digits it reads as 0.
abbrev pub exponent_of : Text → Bool × ℕ
exponent_of [] = (false, 0)
exponent_of (c ∷ s) = if c == 101 || c == 69 then exponent_digits (sign_of s) else (false, 0)

abbrev pub fraction_of : Text → Text × Text
fraction_of [] = ([], [])
fraction_of (c ∷ s) = if c == 46 then span_digits s else ([], c ∷ s)

abbrev pub numeral_of : Bool → Text × Text → Option Numeral
numeral_of negative (whole, rest) =
    let (fraction, behind) = fraction_of rest in
    let (negative_exponent, exponent) = exponent_of behind in
    elim (whole ++ fraction) [
      | [] ↦ none
      | c ∷ s ↦ some (record {
        negative = negative;
        mantissa = number_of (c ∷ s);
        scale = length fraction;
        negative_exponent = negative_exponent;
        exponent = exponent;
      })
    ]

-- `Number.parseFloat(raw)`, `none` where it is not a finite number.
unfoldable pub parse_float : Text → Option Numeral
parse_float raw = let (negative, s) = sign_of raw in numeral_of negative (span_digits s)

unfoldable pub num : Ini → Text → Text → Option Numeral
unfolding is_empty_marker parse_float
num sections section key = elim (cell sections section key) [
  | none ↦ none
  | some raw ↦ if is_empty_marker raw then none else parse_float raw
]

unfoldable pub str : Ini → Text → Text → Option Text
unfolding is_empty_marker
str sections section key = elim (cell sections section key) [
  | none ↦ none
  | some raw ↦ if is_empty_marker raw then none else some raw
]

-- A verdict is the text of the cell in lower case.
unfoldable pub verdict : Ini → Text → Text → Option Text
unfolding is_empty_marker
verdict sections section key = elim (cell sections section key) [
  | none ↦ none
  | some raw ↦ if is_empty_marker raw then none else some (to_lower raw)
]

-- `plate.replace(/[\s\-/]/g, '').toUpperCase()`
unfoldable pub normalize_plate : Text → Text
normalize_plate plate = to_upper (keep (λ c. not (is_space c || (c == 45 || c == 47))) plate)
