-- ===== src/Base/Trim.antt =====
-- Trimming and upper-casing a text twice is doing it once.
use mathlib.Core.Path.{◌≡◌, refl, sym, ap, ◌∙◌, subst}
use mathlib.Core.Bool.{false}
use mathlib.Core.List.{[], ◌∷◌, ◌++◌, reverse, reverse_aux, reverse-append, reverse-reverse}
use Prim.Native.Nat.{ℕ}
use mathlib.Core.Logic.{inl, inr}
use native.Mathlib.Omega.{arith}
use ivis_backend.Base.Tests.{Bool-cases}
use ivis_backend.Base.Texts.{Text, is_space, drop_spaces, trim, upper_code, to_upper}

-- No space at the front.
abbrev IsClean : Text → Type 0
IsClean [] = Unit
IsClean (c ∷ s) = is_space c ≡ false

drop_spaces-IsClean : (s : Text) → IsClean (drop_spaces s)
unfolding drop_spaces
drop_spaces-IsClean [] = tt
drop_spaces-IsClean (c ∷ s) = elim (Bool-cases (is_space c)) [
  | inl space ↦ rw (space, drop_spaces) (drop_spaces-IsClean s)
  | inr other ↦ rw (other, drop_spaces) other
]

drop_spaces_of_IsClean : (s : Text) → IsClean s → drop_spaces s ≡ s
unfolding drop_spaces
drop_spaces_of_IsClean [] h = refl
drop_spaces_of_IsClean (c ∷ s) h = rw (h, drop_spaces)

drop_spaces_suffix : (s : Text) → (front : Text) × (s ≡ front ++ drop_spaces s)
unfolding drop_spaces
drop_spaces_suffix [] = ([], refl)
drop_spaces_suffix (c ∷ s) = elim (Bool-cases (is_space c)) [
  | inl space ↦
      let (front, e) = drop_spaces_suffix s in
      (c ∷ front, rw (space, drop_spaces) (ap (λ r. c ∷ r) e))
  | inr other ↦ ([], rw (other, drop_spaces))
]

IsClean-prefix : (p q : Text) → IsClean (p ++ q) → IsClean p
IsClean-prefix [] q h = tt
IsClean-prefix (c ∷ p) q h = h

trim-IsClean : (s : Text) → IsClean (trim s)
unfolding trim
trim-IsClean s =
    let (front, e) = drop_spaces_suffix (reverse (drop_spaces s)) in
    let parts : drop_spaces s ≡ trim s ++ reverse front =
      sym (reverse-reverse (drop_spaces s))
      ∙ ap reverse e
      ∙ reverse-append front (drop_spaces (reverse (drop_spaces s))) in
    IsClean-prefix (trim s) (reverse front) (subst IsClean parts (drop_spaces-IsClean s))

pub trim-trim : (s : Text) → trim (trim s) ≡ trim s
unfolding trim
trim-trim s = rw (drop_spaces_of_IsClean (trim s) (trim-IsClean s)) (
    rw reverse-reverse (
      rw (
        drop_spaces_of_IsClean (drop_spaces (reverse (drop_spaces s)))
          (drop_spaces-IsClean (reverse (drop_spaces s))))))

upper_code_idem : (c : ℕ) → upper_code (upper_code c) ≡ upper_code c
unfolding upper_code
upper_code_idem c = ground arith

is_space-upper_code : (c : ℕ) → is_space (upper_code c) ≡ is_space c
unfolding upper_code is_space
is_space-upper_code c = ground arith

pub to_upper-to_upper : (s : Text) → to_upper (to_upper s) ≡ to_upper s
unfolding to_upper
to_upper-to_upper [] = refl
to_upper-to_upper (c ∷ s) = cc (upper_code_idem c, to_upper-to_upper s)

drop_spaces-to_upper : (s : Text) → drop_spaces (to_upper s) ≡ to_upper (drop_spaces s)
unfolding drop_spaces to_upper
drop_spaces-to_upper [] = refl
drop_spaces-to_upper (c ∷ s) = elim (Bool-cases (is_space c)) [
  | inl space ↦
      rw (is_space-upper_code c, drop_spaces) (rw (space, drop_spaces) (drop_spaces-to_upper s))
  | inr other ↦ rw (is_space-upper_code c, drop_spaces) (rw (other, drop_spaces))
]

reverse_aux-to_upper :
    (s t : Text) → reverse_aux (to_upper s) (to_upper t) ≡ to_upper (reverse_aux s t)
unfolding to_upper
reverse_aux-to_upper [] t = refl
reverse_aux-to_upper (c ∷ s) t = reverse_aux-to_upper s (c ∷ t)

reverse-to_upper : (s : Text) → reverse (to_upper s) ≡ to_upper (reverse s)
unfolding to_upper
reverse-to_upper s = reverse_aux-to_upper s []

trim-to_upper : (s : Text) → trim (to_upper s) ≡ to_upper (trim s)
unfolding trim
trim-to_upper s =
    rw (drop_spaces-to_upper, reverse-to_upper, drop_spaces-to_upper, reverse-to_upper)

-- The normal form of a code is its own normal form.
pub to_upper-trim_idem : (s : Text) → to_upper (trim (to_upper (trim s))) ≡ to_upper (trim s)
to_upper-trim_idem s = rw (trim-to_upper, trim-trim, to_upper-to_upper)
