-- ===== src/Ingest/PhoneForms.antt =====
-- The forms in which an Oman number arrives.
use ivis_backend.Base.{
  ℕ, suc, zero, ◌==◌, true, false, Option, none, some, [], ◌∷◌, ◌++◌, length, keep, all, Text, text,
  ◌≡◌, refl, sym, ap, ◌∙◌, arith,
}
use ivis_backend.Exchange.Names.{is_digit}
use ivis_backend.Ingest.Phone.{drop, strip_country, strip_trunk, local_number, to_local_oman_digits}

keep_digits : (s : Text) → all is_digit s ≡ true → keep is_digit s ≡ s
keep_digits [] h = refl
keep_digits (c ∷ s) h = ground (arith, keep_digits s)

module _ (c : ℕ) (rest : Text) (digits : all is_digit (c ∷ rest) ≡ true) (seven : length rest ≡ 7)
    (not_zero : (c == b'0') ≡ false) where
  bare : local_number (strip_trunk (strip_country (c ∷ rest))) ≡ some (c ∷ rest)
  bare = ground arith

  trunk : local_number (strip_trunk (strip_country (b'0' ∷ c ∷ rest))) ≡ some (c ∷ rest)
  trunk = ground arith

  country :
      local_number (strip_trunk (strip_country (b'9' ∷ b'6' ∷ b'8' ∷ c ∷ rest))) ≡ some (c ∷ rest)
  country = ground arith

  international :
      local_number (strip_trunk (strip_country (b'0' ∷ b'0' ∷ b'9' ∷ b'6' ∷ b'8' ∷ c ∷ rest)))
      ≡ some (c ∷ rest)
  international = ground arith

  -- A number of eight digits that does not begin with 0 is read as itself, whether it arrives bare,
  -- behind the trunk prefix 0, or behind the country code in the forms 968, +968 and 00968.
  pub to_local_oman_digits-forms :
      (to_local_oman_digits (some (c ∷ rest)) ≡ some (c ∷ rest))
      × (to_local_oman_digits (some (text "0" ++ c ∷ rest)) ≡ some (c ∷ rest))
      × (to_local_oman_digits (some (text "968" ++ c ∷ rest)) ≡ some (c ∷ rest))
      × (to_local_oman_digits (some (text "+968" ++ c ∷ rest)) ≡ some (c ∷ rest))
      × (to_local_oman_digits (some (text "00968" ++ c ∷ rest)) ≡ some (c ∷ rest))
  unfolding to_local_oman_digits
  to_local_oman_digits-forms =
      let kept = keep_digits (c ∷ rest) digits in
      (rw kept bare, rw kept trunk, rw kept country, rw kept country, rw kept international)

all-keep : (s : Text) → all is_digit (keep is_digit s) ≡ true
all-keep [] = refl
all-keep (c ∷ s) = ground (arith, all-keep s)

all-drop : (n : ℕ) (s : Text) → all is_digit s ≡ true → all is_digit (drop n s) ≡ true
all-drop zero s h = h
all-drop (suc n) [] h = refl
all-drop (suc n) (c ∷ s) h = all-drop n s (ground arith)

all-strip_country : (s : Text) → all is_digit s ≡ true → all is_digit (strip_country s) ≡ true
all-strip_country s h = ground (arith, all-drop 5 s h, all-drop 3 s h)

all-strip_trunk : (s : Text) → all is_digit s ≡ true → all is_digit (strip_trunk s) ≡ true
all-strip_trunk s h = ground (arith, all-drop 1 s h)

local_number_inv : (s : Text) {d : Text} → local_number s ≡ some d → (length s ≡ 8) × (s ≡ d)
local_number_inv s e = ground arith

-- What is read from any text is eight characters, all of them digits.
pub to_local_oman_digits-IsLocal :
    (s : Option Text) {d : Text}
    → to_local_oman_digits s ≡ some d
    → (length d ≡ 8) × (all is_digit d ≡ true)
unfolding to_local_oman_digits
to_local_oman_digits-IsLocal none e = absurd cc
to_local_oman_digits-IsLocal (some s) e =
    let front = strip_country (keep is_digit s) in
    let (eight, same) = local_number_inv (strip_trunk front) e in
    (
      ap length (sym same) ∙ eight,
      ap (all is_digit) (sym same)
          ∙ all-strip_trunk front (all-strip_country (keep is_digit s) (all-keep s)),
    )
