-- ===== src/Exchange/NameRoundTrip.antt =====
-- A generated name of an OUT file is read back as the plate and the day it was generated for.
use mathlib.Core.List.{append_assoc}
use ivis_backend.Base.{
  ℕ, zero, suc, ◌==◌, true, false, not, some, [], ◌∷◌, ◌++◌, keep, all, length, Text, text, trim,
  to_upper, to_lower, upper_code, lower_code, is_space, drop_end, drop_end-append,
  drop_spaces_other, trim-drop_end, to_upper-to_upper, ◌≡◌, ◌≢◌, refl, ap, ◌∙◌, arith,
}
use ivis_backend.Exchange.Names.{
  is_digit, is_alnum, normalize_plate_for_file_name, oman_date_stamp, build_out_file_name,
  span_alnum, after, digits, match_date, from_digits, from_behind, match_behind,
  parse_out_file_name,
}

-- `en-CA` writes four digits of the year, two of the month and two of the day, with dashes between.
pub record IsIsoDate (s : Text) : Type 0 where
  pub year : Text
  pub month : Text
  pub day : Text
  pub parts : s ≡ year ++ (45 ∷ (month ++ (45 ∷ day)))
  pub are_digits : all is_digit (year ++ (month ++ day)) ≡ true
  pub eight : length (year ++ (month ++ day)) ≡ 8

keep-digits : (a : Text) → all is_digit a ≡ true → keep (λ c. not (c == 45)) a ≡ a
keep-digits [] h = refl
keep-digits (c ∷ a) h = ground (arith, keep-digits a)

all-append :
    (a b : Text) → all is_digit (a ++ b) ≡ true → (all is_digit a ≡ true) × (all is_digit b ≡ true)
all-append [] b h = (refl, h)
all-append (c ∷ a) b h = ground (arith, all-append a b)

keep-append_dash :
    (a b : Text)
    → keep (λ c. not (c == 45)) (a ++ 45 ∷ b)
      ≡ keep (λ c. not (c == 45)) a ++ keep (λ c. not (c == 45)) b
keep-append_dash [] b = refl
keep-append_dash (c ∷ a) b = ground (arith, keep-append_dash a b)

stamp_of :
    {s : Text} → (d : IsIsoDate s) → keep (λ c. not (c == 45)) s ≡ d.year ++ (d.month ++ d.day)
stamp_of {s} d =
    let (year, rest) = all-append d.year (d.month ++ d.day) d.are_digits in
    let (month, day) = all-append d.month d.day rest in
    ap (keep (λ c. not (c == 45))) d.parts
    ∙ keep-append_dash d.year (d.month ++ (45 ∷ d.day))
    ∙ rw (
      keep-append_dash d.month d.day,
      keep-digits d.year year,
      keep-digits d.month month,
      keep-digits d.day day,
    )

digits-append :
    (n : ℕ) (s rest : Text)
    → length s ≡ n
    → all is_digit s ≡ true
    → digits n (s ++ rest) ≡ some (s, rest)
digits-append zero [] rest l h = refl
digits-append zero (c ∷ s) rest l h = absurd (omega arith)
digits-append (suc n) [] rest l h = absurd (omega arith)
digits-append (suc n) (c ∷ s) rest l h = ground (arith, digits-append n s rest (omega arith))

span_alnum-append :
    (s rest : Text) → all is_alnum s ≡ true → span_alnum (s ++ 45 ∷ rest) ≡ (s, 45 ∷ rest)
unfolding is_alnum
span_alnum-append [] rest h = refl
span_alnum-append (c ∷ s) rest h = ground (arith, span_alnum-append s rest)

is_alnum-upper_code : (c : ℕ) → is_alnum c ≡ true → is_alnum (upper_code c) ≡ true
unfolding is_alnum upper_code
is_alnum-upper_code c h = ground arith

normalize-all_alnum : (plate : Text) → all is_alnum (normalize_plate_for_file_name plate) ≡ true
unfolding normalize_plate_for_file_name to_upper
normalize-all_alnum [] = refl
normalize-all_alnum (c ∷ plate) = ground (arith, is_alnum-upper_code c, normalize-all_alnum plate)

is_space-alnum : (c : ℕ) → is_alnum c ≡ true → is_space c ≡ false
unfolding is_alnum is_space
is_space-alnum c h = ground arith

lower-digits : (s rest : Text) → all is_digit s ≡ true → to_lower (s ++ rest) ≡ s ++ to_lower rest
unfolding to_lower lower_code
lower-digits [] rest h = refl
lower-digits (c ∷ s) rest h = ground (arith, lower-digits s rest)

ext_drop_end : drop_end (text ".res.txt") ≡ text ".res.txt"
unfolding drop_end is_space
ext_drop_end = refl

trim-name :
    (c : ℕ) (s date : Text)
    → is_space c ≡ false
    → trim ((c ∷ s) ++ text "-outfile-" ++ date ++ text ".res.txt")
      ≡ (c ∷ s) ++ text "-outfile-" ++ date ++ text ".res.txt"
trim-name c s date h =
    let name = (c ∷ s) ++ text "-outfile-" ++ date ++ text ".res.txt" in
    trim-drop_end name
    ∙ ap (λ t. drop_end t)
        (drop_spaces_other c (s ++ text "-outfile-" ++ date ++ text ".res.txt") h)
    ∙ drop_end-append ((c ∷ s) ++ text "-outfile-" ++ date) 46 (text "res.txt") ext_drop_end

lower-ext :
    (date : Text)
    → all is_digit date ≡ true
    → to_lower (text "-outfile-" ++ (date ++ text ".res.txt"))
      ≡ text "-outfile-" ++ (date ++ text ".res.txt")
unfolding to_lower lower_code
lower-ext date h = ap (λ t. text "-outfile-" ++ t) (lower-digits date (text ".res.txt") h)

ext_match :
    (plate date : Text) → match_date plate (date, text ".res.txt") ≡ some (to_upper plate, date)
unfolding to_lower lower_code
ext_match plate date = refl

match_behind-name :
    (c : ℕ) (s date : Text)
    → all is_digit date ≡ true
    → length date ≡ 8
    → match_behind (c ∷ s, text "-outfile-" ++ (date ++ text ".res.txt"))
      ≡ some (to_upper (c ∷ s), date)
match_behind-name c s date h l =
    ap (λ t. from_behind (c ∷ s) (after (text "-outfile-") t)) (lower-ext date h)
    ∙ ap (from_digits (c ∷ s)) (digits-append 8 date (text ".res.txt") l h)
    ∙ ext_match (c ∷ s) date

parse_parts :
    (c : ℕ) (s date : Text)
    → all is_alnum (c ∷ s) ≡ true
    → all is_digit date ≡ true
    → length date ≡ 8
    → parse_out_file_name ((c ∷ s) ++ text "-outfile-" ++ date ++ text ".res.txt")
      ≡ some (to_upper (c ∷ s), date)
unfolding parse_out_file_name
parse_parts c s date alnum h l =
    ap (λ t. match_behind (span_alnum t))
      (trim-name c s date (is_space-alnum c (ground arith))
        ∙ append_assoc ((c ∷ s) ++ text "-outfile-") date (text ".res.txt")
        ∙ append_assoc (c ∷ s) (text "-outfile-") (date ++ text ".res.txt"))
    ∙ ap match_behind
        (span_alnum-append (c ∷ s) (text "outfile-" ++ (date ++ text ".res.txt")) alnum)
    ∙ match_behind-name c s date h l

parse_normalized :
    (plate date : Text)
    → all is_alnum plate ≡ true
    → to_upper plate ≡ plate
    → plate ≢ []
    → all is_digit date ≡ true
    → length date ≡ 8
    → parse_out_file_name (plate ++ text "-outfile-" ++ date ++ text ".res.txt")
      ≡ some (plate, date)
parse_normalized [] date a u some_left h l = absurd (some_left refl)
parse_normalized (c ∷ s) date a u some_left h l =
    parse_parts c s date a h l ∙ ap (λ p. some (p, date)) u

normalized_upper :
    (plate : Text)
    → to_upper (normalize_plate_for_file_name plate) ≡ normalize_plate_for_file_name plate
unfolding normalize_plate_for_file_name
normalized_upper plate = to_upper-to_upper (keep is_alnum plate)

stamp {ℓ} :
    {Instant : Type ℓ} (format : Instant → Text) (at : Instant)
    → (d : IsIsoDate (format at)) → oman_date_stamp format at ≡ d.year ++ (d.month ++ d.day)
unfolding oman_date_stamp
stamp format at d = stamp_of d

-- For a plate with a letter or digit, and a formatter that writes dates like 2026-08-17: the name of
-- the OUT file is read back as the normalised plate and the eight digits of the day.
pub parse-build_out_file_name {ℓ} :
    {Instant : Type ℓ} (format : Instant → Text) (plate : Text) (at : Instant)
    → IsIsoDate (format at)
    → normalize_plate_for_file_name plate ≢ []
    → parse_out_file_name (build_out_file_name format plate at)
      ≡ some (normalize_plate_for_file_name plate, oman_date_stamp format at)
unfolding build_out_file_name
parse-build_out_file_name format plate at iso some_left =
    let same = stamp format at iso in
    parse_normalized (normalize_plate_for_file_name plate) (oman_date_stamp format at)
      (normalize-all_alnum plate) (normalized_upper plate) some_left
      (ap (all is_digit) same ∙ iso.are_digits) (ap length same ∙ iso.eight)
