-- ===== src/Base/Rows.antt =====
-- Two tables compared row by row.
use mathlib.Core.Path.{◌≡◌, refl, ap, subst}
use mathlib.Core.Logic.{inl, inr}
use mathlib.Core.Bool.{Bool, true, false}
use mathlib.Core.List.{List, [], ◌∷◌}
use mathlib.Core.Option.{some}
use native.Mathlib.Omega.{arith}
use ivis_backend.Base.Tests.{Bool-cases, if◌then◌else◌}
use ivis_backend.Base.Lists.{find, update_first}

module _ {A : Type 0} (R : A → A → Type 0) where
  -- As many rows, and each in relation with the one at its place.
  abbrev pub RowByRow : List A → List A → Type 0
  RowByRow [] [] = Unit
  RowByRow (a ∷ xs) (b ∷ ys) = R a b × RowByRow xs ys
  RowByRow [] (b ∷ ys) = ⊥
  RowByRow (a ∷ xs) [] = ⊥

  pub RowByRow-trans :
      ((a b c : A) → R a b → R b c → R a c)
      → (xs ys zs : List A) → RowByRow xs ys
      → RowByRow ys zs
      → RowByRow xs zs
  RowByRow-trans t [] [] zs h k = k
  RowByRow-trans t [] (y ∷ ys) zs h k = absurd h
  RowByRow-trans t (x ∷ xs) [] zs h k = absurd h
  RowByRow-trans t (x ∷ xs) (y ∷ ys) [] h k = absurd k
  RowByRow-trans t (x ∷ xs) (y ∷ ys) (z ∷ zs) h k =
      (t x y z h.0 k.0, RowByRow-trans t xs ys zs h.1 k.1)

  module _ (same : (a : A) → R a a) where
    pub RowByRow-refl : (xs : List A) → RowByRow xs xs
    RowByRow-refl [] = tt
    RowByRow-refl (a ∷ xs) = (same a, RowByRow-refl xs)

    -- An update of the row that is found.
    pub RowByRow-update_first :
        (hit : A → Bool) (f : A → A) (xs : List A) {a : A}
        → find hit xs ≡ some a
        → R a (f a)
        → RowByRow xs (update_first hit f xs)
    RowByRow-update_first hit f [] e h = absurd cc
    RowByRow-update_first hit f (x ∷ xs) {a} e h = elim (Bool-cases (hit x)) [
      | inl here ↦
          let found : a ≡ x = ground arith in
          rw (here, update_first) (subst (λ q. R q (f q)) found h, RowByRow-refl xs)
      | inr later ↦
          rw (later, update_first) (same x, RowByRow-update_first hit f xs {a = a} (ground arith) h)
    ]

-- A property of both branches is one of the conditional.
pub if-cases :
    {A : Type 0} (P : A → Type 0) (b : Bool) {x y : A}
    → (b ≡ true → P x)
    → (b ≡ false → P y)
    → P (if b then x else y)
if-cases P true yes_case no_case = yes_case refl
if-cases P false yes_case no_case = no_case refl

pub if_false : {A : Type 0} {b : Bool} (x : A) {y : A} → b ≡ false → (if b then x else y) ≡ y
if_false x {y} h = ap (λ b. if b then x else y) h

pub if_true : {A : Type 0} {b : Bool} {x : A} (y : A) → b ≡ true → (if b then x else y) ≡ x
if_true {x = x} y h = ap (λ b. if b then x else y) h
