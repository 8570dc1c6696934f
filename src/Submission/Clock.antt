-- ===== src/Submission/Clock.antt =====
-- `toSeconds` of common/integrations/appointments/inspection-result.mapper.ts.
use ivis_backend.Base.{
  ℕ, ◌+◌, ◌==◌, ltb, Option, none, some, [], ◌∷◌, ◌++◌, Text, text, text_eq, trim, to_lower,
  drop_spaces, decimal, or_else, if◌then◌else◌,
}
use ivis_backend.Exchange.Names.{after, digits}
use ivis_backend.Submission.Readings.{number_of}

pub data Meridiem : Type 0 where
  am pm : Meridiem

-- `(\d{n}):` at the front, and the text behind it.
abbrev pub then_colon : Option (Text × Text) → Option (Text × Text)
then_colon none = none
then_colon (some (front, behind)) = elim (after (text ":") behind) [
  | none ↦ none
  | some rest ↦ some (front, rest)
]

-- `(\d{1,2}):`
abbrev pub hour_digits : Text → Option (Text × Text)
hour_digits s = or_else (then_colon (digits 2 s)) (then_colon (digits 1 s))

abbrev pub or_no_seconds : Text → Option (Text × Text) → Text × Text
or_no_seconds s none = (text "00", s)
or_no_seconds s (some found) = found

-- `(?::(\d{2}))?`, with `00` where it is missing.
abbrev pub second_digits : Text → Text × Text
second_digits s =
    or_no_seconds s (elim (after (text ":") s) [ none ↦ none | some behind ↦ digits 2 behind ])

-- `(am|pm)?$`; the outer `none` is a text that does not match.
abbrev pub meridiem_of : Text → Option (Option Meridiem)
meridiem_of [] = some none
meridiem_of (c ∷ s) =
    if text_eq (to_lower (c ∷ s)) (text "am")
    then some (some Meridiem.am)
    else if text_eq (to_lower (c ∷ s)) (text "pm")
    then some (some Meridiem.pm)
    else none

abbrev pub hour_of : ℕ → Option Meridiem → ℕ
hour_of hour none = hour
hour_of hour (some Meridiem.pm) = if ltb hour 12 then hour + 12 else hour
hour_of hour (some Meridiem.am) = if hour == 12 then 0 else hour

-- `String(n).padStart(2, '0')`
abbrev pub pad : ℕ → Text
pad n = if ltb n 10 then b'0' ∷ decimal n else decimal n

abbrev pub print_clock : Text → Text → Text → Option Meridiem → Text
print_clock hour minute second meridiem =
    pad (hour_of (number_of hour) meridiem) ++ text ":" ++ minute ++ text ":" ++ second

abbrev pub behind_minute : Text → Text → Text × Text → Option Text
behind_minute hour minute (second, behind) = elim (meridiem_of (drop_spaces behind)) [
  | none ↦ none
  | some meridiem ↦ some (print_clock hour minute second meridiem)
]

abbrev pub behind_hour : Text → Option (Text × Text) → Option Text
behind_hour hour none = none
behind_hour hour (some (minute, behind)) = behind_minute hour minute (second_digits behind)

abbrev pub match_clock : Option (Text × Text) → Option Text
match_clock none = none
match_clock (some (hour, behind)) = behind_hour hour (digits 2 behind)

-- An empty text matches as little as a missing one.
unfoldable pub to_seconds : Option Text → Option Text
to_seconds none = none
to_seconds (some value) = match_clock (hour_digits (trim value))
