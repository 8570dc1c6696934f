-- ===== src/Exchange/Ini.antt =====
-- common/shared/files/ini-parser.util.ts: the reader of the Admin PC's files and the verdict drawn
-- from one. A text is read as UTF-16 code units.
use ivis_backend.Exchange.Names.{is_digit}
use ivis_backend.Base.{
  ◌-◌, ◌*◌, ◌+◌, all, not, ltb, lacks, ℕ, ◌==◌, Bool, true, false, ◌&&◌, ◌||◌, Option, none, some,
  List, [], ◌∷◌, map, Text, text, text_eq, trim, to_lower, includes, keep, any, if◌then◌else◌,
  entry_set, entry_get,
}

-- Record<string, Record<string, string>>, the own properties in the order of their enumeration.
abbrev pub Section : Type 0
Section = List (Text × Text)

abbrev pub Ini : Type 0
Ini = List (Text × Section)

-- One more character at the front of the first line.
abbrev pub push_char : ℕ → List Text → List Text
push_char c [] = (c ∷ []) ∷ []
push_char c (line ∷ lines) = (c ∷ line) ∷ lines

abbrev pub starts_line_feed : Text → Bool
starts_line_feed [] = false
starts_line_feed (c ∷ s) = c == 10

-- `content.split(/\r?\n/)`
unfoldable pub split_lines : Text → List Text
split_lines [] = [] ∷ []
split_lines (c ∷ s) =
    let rest = split_lines s in
    if c == 10 then [] ∷ rest else if c == 13 && starts_line_feed s then rest else push_char c rest

-- What `.` of a regular expression does not match.
abbrev pub ends_line : ℕ → Bool
ends_line c = c == 10 || (c == 13 || (c == 8232 || c == 8233))

-- The text before a final `]`.
unfoldable pub before_bracket : Text → Option Text
before_bracket [] = none
before_bracket (c ∷ []) = if c == 93 then some [] else none
before_bracket (c ∷ d ∷ s) = elim (before_bracket (d ∷ s)) [ none ↦ none | some t ↦ some (c ∷ t) ]

abbrev pub if_section : Option Text → Option Text
if_section none = none
if_section (some []) = none
if_section (some (c ∷ t)) = if any ends_line (c ∷ t) then none else some (c ∷ t)

-- `/^\[(.+)\]$/.exec(line)`, its first group.
unfoldable pub section_match : Text → Option Text
unfolding before_bracket
section_match [] = none
section_match (c ∷ s) = if c == 91 then if_section (before_bracket s) else none

-- `line.slice(0, eq)` and `line.slice(eq + 1)` for `eq = line.indexOf('=')`.
unfoldable pub cut_at_equals : Text → Option (Text × Text)
cut_at_equals [] = none
cut_at_equals (c ∷ s) = elim (c == 61) [
  | true ↦ some ([], s)
  | false ↦ elim (cut_at_equals s) [ none ↦ none | some (k, v) ↦ some (c ∷ k, v) ]
]

-- `!line || line.startsWith(';') || line.startsWith('#')`
abbrev pub is_skipped : Text → Bool
is_skipped [] = true
is_skipped (c ∷ s) = c == 59 || c == 35

-- The variables `current` and `result` of the loop.
abbrev pub Reader : Type 0
Reader = Text × Ini

-- What `result[name]` finds on the prototype of every object.
unfoldable pub is_inherited : Text → Bool
is_inherited name =
    any (λ n. text_eq n name)
      (text "constructor"
        ∷ text "__proto__"
        ∷ text "toString"
        ∷ text "toLocaleString"
        ∷ text "valueOf"
        ∷ text "hasOwnProperty"
        ∷ text "isPrototypeOf"
        ∷ text "propertyIsEnumerable"
        ∷ text "__defineGetter__"
        ∷ text "__defineSetter__"
        ∷ text "__lookupGetter__"
        ∷ text "__lookupSetter__"
        ∷ [])

abbrev pub index_value : ℕ → Text → ℕ
index_value n [] = n
index_value n (c ∷ s) = index_value (n * 10 + (c - 48)) s

-- The canonical numeral of an array index, below 2^32 - 1. Such keys are enumerated first, by number.
unfoldable pub is_index : Text → Bool
is_index [] = false
is_index (c ∷ []) = is_digit c
is_index (c ∷ d ∷ s) =
    not (c == 48) && (all is_digit (c ∷ d ∷ s) && ltb (index_value 0 (c ∷ d ∷ s)) 4294967295)

module _ {V : Type 0} where
  abbrev pub insert_index : Text → V → List (Text × V) → List (Text × V)
  insert_index k v [] = (k, v) ∷ []
  insert_index k v ((j, w) ∷ o) = elim (is_index j && ltb (index_value 0 j) (index_value 0 k)) [
    | true ↦ (j, w) ∷ insert_index k v o
    | false ↦ (k, v) ∷ (j, w) ∷ o
  ]

  -- `o[k] = v`
  abbrev pub property_set : Text → V → List (Text × V) → List (Text × V)
  property_set k v o = if is_index k && lacks k o then insert_index k v o else entry_set k v o

-- `current = …; if (!result[current]) result[current] = {}`. A name that is inherited gets no section.
abbrev pub open_section : Text → Ini → Reader
open_section name result = (
  name,
  elim (entry_get name result) [
    | none ↦ if is_inherited name then result else property_set name [] result
    | some section ↦ result
  ],
)

abbrev pub section_or_empty : Option Section → Section
section_or_empty none = []
section_or_empty (some section) = section

-- A text that is assigned to `__proto__` is ignored.
abbrev pub text_assigned : Text → Text → Section → Section
text_assigned key value section =
    if text_eq key (text "__proto__") then section else property_set key value section

-- Where `result[current]` is inherited, the entry goes to an object that all share, not to the result;
-- what it does there is not modelled.
abbrev pub put_in : Text → Text → Text → Ini → Ini
put_in current key value result = elim (entry_get current result) [
  | none ↦ result
  | some section ↦ entry_set current (text_assigned key value section) result
]

-- `result[current][key] = value`
abbrev pub put_entry : Reader → Text × Text → Reader
put_entry (current, result) (key, value) = (current, put_in current (trim key) (trim value) result)

-- The body of the loop, after `rawLine.trim()`.
unfoldable pub read_line : Reader → Text → Reader
unfolding section_match cut_at_equals
read_line (current, result) line =
    if is_skipped line then (current, result) else elim (section_match line) [
      | some name ↦ open_section (trim name) result
      | none ↦ elim (cut_at_equals line) [
        | none ↦ (current, result)
        | some entry ↦ put_entry (current, result) entry
      ]
    ]

unfoldable pub read_lines : Reader → List Text → Reader
unfolding read_line
read_lines r [] = r
read_lines r (line ∷ lines) = read_lines (read_line r (trim line)) lines

unfoldable pub parse_ini : Text → Ini
unfolding split_lines read_lines
parse_ini content = (read_lines (text "_", (text "_", []) ∷ []) (split_lines content)).1

abbrev pub ends_with : Text → Text → Bool
ends_with [] p = text_eq [] p
ends_with (c ∷ s) p = text_eq (c ∷ s) p || ends_with s p

-- `/genResult$|TestResult$/i.test(k)`
unfoldable pub is_result_key : Text → Bool
is_result_key k =
    ends_with (to_lower k) (text "genresult") || ends_with (to_lower k) (text "testresult")

pub data Verdict : Type 0 where
  passed failed : Verdict

abbrev pub verdict_of : List Text → Option Verdict
verdict_of [] = none
verdict_of (v ∷ vs) =
    some (if any (λ w. includes w (text "fail")) (v ∷ vs) then Verdict.failed else Verdict.passed)

unfoldable pub derive_overall_result : Ini → Option Verdict
unfolding is_result_key
derive_overall_result parsed = verdict_of (
    map (λ e. to_lower e.1)
      (keep (λ e. is_result_key e.0) (section_or_empty (entry_get (text "FlatResults") parsed))))
