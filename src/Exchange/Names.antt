-- ===== src/Exchange/Names.antt =====
-- common/shared/files/inspection-file-name.util.ts: the names of the exchanged files. The formatter of
-- `Intl` for `en-CA` in the time zone of Muscat is the parameter `format`.
use ivis_backend.Base.{
  ℕ, zero, suc, ◌==◌, Bool, ◌&&◌, ◌||◌, not, Option, none, some, [], ◌∷◌, ◌++◌, keep, Text, text,
  text_eq, trim, to_upper, to_lower, leb, if◌then◌else◌,
}

abbrev pub is_digit : ℕ → Bool
is_digit c = leb b'0' c && leb c b'9'

abbrev pub is_letter : ℕ → Bool
is_letter c = (leb b'a' c && leb c b'z') || (leb b'A' c && leb c b'Z')

-- `[A-Za-z0-9]`
unfoldable pub is_alnum : ℕ → Bool
is_alnum c = is_digit c || is_letter c

-- `plate.replace(/[^A-Za-z0-9]/g, '').toUpperCase()`
unfoldable pub normalize_plate_for_file_name : Text → Text
unfolding is_alnum
normalize_plate_for_file_name plate = to_upper (keep is_alnum plate)

module _ {ℓ} {Instant : Type ℓ} (format : Instant → Text) where
  -- `….format(at).replace(/-/g, '')`
  unfoldable pub oman_date_stamp : Instant → Text
  oman_date_stamp at = keep (λ c. not (c == 45)) (format at)

  unfoldable pub build_in_file_name : Text → Instant → Text
  unfolding normalize_plate_for_file_name oman_date_stamp
  build_in_file_name plate at =
      normalize_plate_for_file_name plate ++ text "-infile-" ++ oman_date_stamp at ++ text ".data"

  unfoldable pub build_out_file_name : Text → Instant → Text
  unfolding normalize_plate_for_file_name oman_date_stamp
  build_out_file_name plate at =
      normalize_plate_for_file_name plate
      ++ text "-outfile-"
      ++ oman_date_stamp at
      ++ text ".res.txt"

-- `([A-Za-z0-9]+)` at the front, and the text behind it. What follows in the expression starts with
-- a `-`, so that the longest match is the only one.
abbrev pub span_alnum : Text → Text × Text
span_alnum [] = ([], [])
span_alnum (c ∷ s) =
    let (front, rest) = span_alnum s in if is_alnum c then (c ∷ front, rest) else ([], c ∷ s)

-- The text behind a prefix, where it is there.
abbrev pub after : Text → Text → Option Text
after [] s = some s
after (a ∷ p) [] = none
after (a ∷ p) (b ∷ s) = if a == b then after p s else none

-- `(\d{n})` at the front, and the text behind it.
abbrev pub digits : ℕ → Text → Option (Text × Text)
digits zero s = some ([], s)
digits (suc n) [] = none
digits (suc n) (c ∷ s) =
    let rest = digits n s in
    if is_digit c
    then (elim rest [ none ↦ none | some (front, behind) ↦ some (c ∷ front, behind) ])
    else none

-- `\.(?:res\.txt|res|txt)$`
abbrev pub is_extension : Text → Bool
is_extension s = text_eq s (text ".res.txt") || (text_eq s (text ".res") || text_eq s (text ".txt"))

abbrev pub match_date : Text → Text × Text → Option (Text × Text)
match_date plate (date, extension) =
    if is_extension (to_lower extension) then some (to_upper plate, date) else none

abbrev pub from_digits : Text → Option (Text × Text) → Option (Text × Text)
from_digits plate none = none
from_digits plate (some found) = match_date plate found

abbrev pub from_behind : Text → Option Text → Option (Text × Text)
from_behind plate none = none
from_behind plate (some behind) = from_digits plate (digits 8 behind)

abbrev pub match_behind : Text × Text → Option (Text × Text)
match_behind ([], rest) = none
match_behind (c ∷ plate, rest) = from_behind (c ∷ plate) (after (text "-outfile-") (to_lower rest))

-- `/^([A-Za-z0-9]+)-outfile-(\d{8})\.(?:res\.txt|res|txt)$/i`; the digits and the extension are read
-- in lower case, which changes no digit.
unfoldable pub parse_out_file_name : Text → Option (Text × Text)
unfolding is_alnum
parse_out_file_name file_name = match_behind (span_alnum (trim file_name))
