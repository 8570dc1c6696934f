-- ===== src/Base/Texts.antt =====
-- Text as the list of its UTF-16 code units, with the methods of `String` that the program calls.
-- Letter case is that of the ASCII letters.
use Prim.Native.Nat.{ℕ, zero, suc, ◌+◌, ◌-◌, ◌/◌, ◌%◌}
use Prim.Native.Char.{code}
use Prim.Native.String.{String}
use mathlib.Core.Path.{◌≡◌, refl}
use mathlib.Core.Bool.{Bool, true, false, ◌&&◌, ◌||◌}
use mathlib.Core.List.{List, [], ◌∷◌, map, reverse}
use native.Mathlib.Omega.{arith}
use ivis_backend.Base.Lists.{any}
use ivis_backend.Base.Tests.{leb, ◌==◌, if◌then◌else◌}

abbrev pub Text : Type 0
Text = List ℕ

abbrev pub text : String → Text
text String.[] = []
text (String.◌∷◌ c s) = code c ∷ text s

-- `a === b`
abbrev pub text_eq : Text → Text → Bool
text_eq [] [] = true
text_eq (a ∷ s) (b ∷ t) = a == b && text_eq s t
text_eq _ _ = false

pub text_eq→eq : (s t : Text) → text_eq s t ≡ true → s ≡ t
text_eq→eq [] [] h = refl
text_eq→eq (a ∷ s) (b ∷ t) h = ground (arith, text_eq→eq s t)
text_eq→eq [] (b ∷ t) h = cc
text_eq→eq (a ∷ s) [] h = cc

pub text_eq_refl : (s : Text) → text_eq s s ≡ true
text_eq_refl [] = refl
text_eq_refl (a ∷ s) = ground (arith, text_eq_refl s)

unfoldable pub is_space : ℕ → Bool
is_space c =
    (leb 9 c && leb c 13)
    || (c == 32
        || (c == 160
            || (c == 5760
                || ((leb 8192 c && leb c 8202)
                    || (c == 8232
                        || (c == 8233
                            || (c == 8239 || (c == 8287 || (c == 12288 || c == 65279)))))))))

unfoldable pub drop_spaces : Text → Text
drop_spaces [] = []
drop_spaces (c ∷ s) = elim (is_space c) [ true ↦ drop_spaces s | false ↦ c ∷ s ]

-- `s.trim()`
unfoldable pub trim : Text → Text
unfolding drop_spaces is_space
trim s = reverse (drop_spaces (reverse (drop_spaces s)))

unfoldable pub upper_code : ℕ → ℕ
upper_code c = if leb b'a' c && leb c b'z' then c - 32 else c

unfoldable pub lower_code : ℕ → ℕ
lower_code c = if leb b'A' c && leb c b'Z' then c + 32 else c

-- `s.toUpperCase()`
unfoldable pub to_upper : Text → Text
unfolding upper_code
to_upper = map upper_code

-- `s.toLowerCase()`
unfoldable pub to_lower : Text → Text
unfolding lower_code
to_lower = map lower_code

-- `s.startsWith(p)`
abbrev pub starts_with : Text → Text → Bool
starts_with s [] = true
starts_with [] (b ∷ p) = false
starts_with (a ∷ s) (b ∷ p) = a == b && starts_with s p

-- `s.includes(p)`
unfoldable pub includes : Text → Text → Bool
includes [] p = starts_with [] p
includes (a ∷ s) p = starts_with (a ∷ s) p || includes s p

digits_onto : ℕ → ℕ → Text → Text
digits_onto zero n rest = rest
digits_onto (suc f) n rest = elim (n / 10) [
  | zero ↦ (48 + n % 10) ∷ rest
  | suc m ↦ digits_onto f (n / 10) ((48 + n % 10) ∷ rest)
]

-- `String(n)`; a number has at most one digit more than its value.
unfoldable pub decimal : ℕ → Text
unfolding digits_onto
decimal n = digits_onto (suc n) n []

digits_onto-any :
    (f n : ℕ) (rest : Text)
    → any (λ c. c == 10) rest ≡ false
    → any (λ c. c == 10) (digits_onto f n rest) ≡ false
unfolding digits_onto
digits_onto-any zero n rest h = h
digits_onto-any (suc f) n rest h =
    go (n / 10) (digits_onto-any f (n / 10) ((48 + n % 10) ∷ rest) (ground arith))
  where
    go :
        (q : ℕ)
        → any (λ c. c == 10) (digits_onto f (n / 10) ((48 + n % 10) ∷ rest)) ≡ false
        → any
            (λ c. c == 10)
            (elim q [
              | zero ↦ (48 + n % 10) ∷ rest
              | suc m ↦ digits_onto f (n / 10) ((48 + n % 10) ∷ rest)
            ])
          ≡ false
    go zero later = ground arith
    go (suc m) later = later

-- The digits of a number hold no line feed.
pub any-decimal : (n : ℕ) → any (λ c. c == 10) (decimal n) ≡ false
unfolding decimal
any-decimal n = digits_onto-any (suc n) n [] refl
