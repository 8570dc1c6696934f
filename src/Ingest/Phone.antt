-- ===== src/Ingest/Phone.antt =====
-- `toLocalOmanDigits` of common/utils/oman-phone.util.ts.
use ivis_backend.Base.{
  ℕ, zero, suc, ◌==◌, ltb, ◌&&◌, Option, none, some, List, [], ◌∷◌, length, keep, Text, text,
  starts_with, if◌then◌else◌,
}
use ivis_backend.Exchange.Names.{is_digit}

module _ {ℓ} {A : Type ℓ} where
  -- `s.slice(n)`
  abbrev pub drop : ℕ → List A → List A
  drop zero xs = xs
  drop (suc n) [] = []
  drop (suc n) (x ∷ xs) = drop n xs

abbrev pub strip_country : Text → Text
strip_country s =
    if starts_with s (text "00968")
    then drop 5 s
    else if starts_with s (text "968") && ltb 8 (length s)
    then drop 3 s
    else s

abbrev pub strip_trunk : Text → Text
strip_trunk s = if length s == 9 && starts_with s (text "0") then drop 1 s else s

abbrev pub local_number : Text → Option Text
local_number s = if length s == 8 then some s else none

-- A missing value has no digits either.
unfoldable pub to_local_oman_digits : Option Text → Option Text
to_local_oman_digits none = none
to_local_oman_digits (some s) = local_number (strip_trunk (strip_country (keep is_digit s)))
