-- ===== src/Base/TrimEnds.antt =====
-- Trimming a text whose ends are known.
use mathlib.Core.Path.{◌≡◌, refl, sym, ap, ◌∙◌}
use mathlib.Core.Bool.{true, false}
use mathlib.Core.List.{[], ◌∷◌, ◌++◌, reverse, reverse-append}
use Prim.Native.Nat.{ℕ}
use mathlib.Core.Logic.{inl, inr}
use native.Mathlib.Omega.{arith}
use ivis_backend.Base.Tests.{Bool-cases}
use ivis_backend.Base.Texts.{Text, is_space, drop_spaces, trim}

-- `c` before a text that has no space at its end.
abbrev put_before : ℕ → Text → Text
put_before c [] = elim (is_space c) [ true ↦ [] | false ↦ c ∷ [] ]
put_before c (d ∷ t) = c ∷ d ∷ t

-- `s.trimEnd()` from the front.
unfoldable pub drop_end : Text → Text
drop_end [] = []
drop_end (c ∷ s) = put_before c (drop_end s)

drop_spaces-append_one :
    (a : Text) (c : ℕ)
    → drop_spaces (a ++ c ∷ [])
      ≡ (elim (drop_spaces a) [ [] ↦ drop_spaces (c ∷ []) | d ∷ t ↦ d ∷ t ++ c ∷ [] ])
unfolding drop_spaces
drop_spaces-append_one [] c = refl
drop_spaces-append_one (b ∷ a) c = elim (Bool-cases (is_space b)) [
  | inl space ↦ rw (space, drop_spaces) (drop_spaces-append_one a c)
  | inr other ↦ rw (other, drop_spaces)
]

reverse_one : (s : Text) (c : ℕ) → reverse (c ∷ s) ≡ reverse s ++ c ∷ []
reverse_one s c = reverse-append (c ∷ []) s

one_reverse : (s : Text) (c : ℕ) → reverse (s ++ c ∷ []) ≡ c ∷ reverse s
one_reverse s c = reverse-append s (c ∷ [])

put_before_other : (c : ℕ) (t : Text) → is_space c ≡ false → put_before c t ≡ c ∷ t
put_before_other c [] h = rw (h, put_before)
put_before_other c (d ∷ t) h = refl

drop_spaces_space : (c : ℕ) (s : Text) → is_space c ≡ true → drop_spaces (c ∷ s) ≡ drop_spaces s
unfolding drop_spaces
drop_spaces_space c s h = rw (h, drop_spaces)

pub drop_spaces_other : (c : ℕ) (s : Text) → is_space c ≡ false → drop_spaces (c ∷ s) ≡ c ∷ s
unfolding drop_spaces
drop_spaces_other c s h = rw (h, drop_spaces)

put_before-append_one : (c d : ℕ) (t : Text) → put_before c (t ++ d ∷ []) ≡ c ∷ t ++ d ∷ []
put_before-append_one c d [] = refl
put_before-append_one c d (b ∷ t) = refl

put_before-reverse :
    (c : ℕ) (m : Text)
    → reverse (elim m [ [] ↦ drop_spaces (c ∷ []) | d ∷ t ↦ d ∷ t ++ c ∷ [] ])
      ≡ put_before c (reverse m)
unfolding drop_spaces
put_before-reverse c [] = elim (Bool-cases (is_space c)) [
  | inl space ↦ rw (space, drop_spaces, put_before)
  | inr other ↦ rw (other, drop_spaces, put_before)
]
put_before-reverse c (d ∷ t) =
    one_reverse (d ∷ t) c
    ∙ ap (λ x. c ∷ x) (reverse_one t d)
    ∙ sym (put_before-append_one c d (reverse t))
    ∙ ap (put_before c) (sym (reverse_one t d))

drop_end-reverse : (s : Text) → reverse (drop_spaces (reverse s)) ≡ drop_end s
unfolding drop_end drop_spaces
drop_end-reverse [] = refl
drop_end-reverse (c ∷ s) =
    rw (reverse_one, drop_spaces-append_one)
      (put_before-reverse c (drop_spaces (reverse s)) ∙ ap (put_before c) (drop_end-reverse s))

pub trim-drop_end : (s : Text) → trim s ≡ drop_end (drop_spaces s)
unfolding trim
trim-drop_end s = drop_end-reverse (drop_spaces s)

pub drop_end_solid :
    (a : Text) (c : ℕ) (b : Text) → is_space c ≡ false → drop_end (a ++ c ∷ b) ≡ a ++ c ∷ drop_end b
unfolding drop_end
drop_end_solid [] c b h = put_before_other c (drop_end b) h
drop_end_solid (x ∷ a) c b h = rw (drop_end_solid a c b h) (go a)
  where
    go : (t : Text) → put_before x (t ++ c ∷ drop_end b) ≡ x ∷ t ++ c ∷ drop_end b
    go [] = refl
    go (d ∷ t) = refl

-- An end that is not trimmed keeps the text before it.
pub drop_end-append :
    (a : Text) (d : ℕ) (t : Text) → drop_end (d ∷ t) ≡ d ∷ t → drop_end (a ++ d ∷ t) ≡ a ++ d ∷ t
unfolding drop_end
drop_end-append [] d t h = h
drop_end-append (x ∷ a) d t h = ap (put_before x) (drop_end-append a d t h) ∙ go a
  where
    go : (a : Text) → put_before x (a ++ d ∷ t) ≡ x ∷ a ++ d ∷ t
    go [] = refl
    go (b ∷ a) = refl

drop_end-put_before :
    (c : ℕ) (t : Text) → drop_end t ≡ t → drop_end (put_before c t) ≡ put_before c t
unfolding drop_end
drop_end-put_before c [] e = ground arith
drop_end-put_before c (d ∷ t) e = ap (put_before c) e

drop_end_idem : (s : Text) → drop_end (drop_end s) ≡ drop_end s
unfolding drop_end
drop_end_idem [] = refl
drop_end_idem (c ∷ s) = drop_end-put_before c (drop_end s) (drop_end_idem s)

drop_spaces-put_before :
    (c : ℕ) (t : Text) → is_space c ≡ true → drop_spaces (put_before c t) ≡ drop_spaces t
unfolding drop_spaces
drop_spaces-put_before c [] h = rw (h, put_before)
drop_spaces-put_before c (d ∷ t) h = drop_spaces_space c (d ∷ t) h

-- The ends are trimmed in either order.
drop_spaces-drop_end : (s : Text) → drop_spaces (drop_end s) ≡ drop_end (drop_spaces s)
unfolding drop_end drop_spaces
drop_spaces-drop_end [] = refl
drop_spaces-drop_end (c ∷ s) = elim (Bool-cases (is_space c)) [
  | inl space ↦
      drop_spaces-put_before c (drop_end s) space
      ∙ drop_spaces-drop_end s
      ∙ ap (λ t. drop_end t) (sym (drop_spaces_space c s space))
  | inr other ↦
      ap (λ t. drop_spaces t) (put_before_other c (drop_end s) other)
      ∙ drop_spaces_other c (drop_end s) other
      ∙ sym (put_before_other c (drop_end s) other)
      ∙ ap (λ t. drop_end t) (sym (drop_spaces_other c s other))
]

pub trim-drop_end_idem : (s : Text) → trim (drop_end s) ≡ trim s
trim-drop_end_idem s =
    trim-drop_end (drop_end s)
    ∙ ap (λ t. drop_end t) (drop_spaces-drop_end s)
    ∙ drop_end_idem (drop_spaces s)
    ∙ sym (trim-drop_end s)
