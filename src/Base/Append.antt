-- ===== src/Base/Append.antt =====
-- What a query finds after a row has been appended.
use mathlib.Core.Path.{◌≡◌, refl}
use mathlib.Core.Bool.{Bool, true, false}
use mathlib.Core.List.{List, [], ◌∷◌, ◌++◌}
use mathlib.Core.Option.{none, some}
use native.Mathlib.Omega.{arith}
use ivis_backend.Base.Lists.{any, find, update_first, All}

module _ {ℓ} {A : Type ℓ} where
  pub find-append_new :
      (p : A → Bool) (xs : List A) (x : A)
      → find p xs ≡ none
      → p x ≡ true
      → find p (xs ++ x ∷ []) ≡ some x
  find-append_new p [] x h now = ground arith
  find-append_new p (y ∷ ys) x h now = ground (arith, find-append_new p ys x)

  pub find-append_old :
      (p : A → Bool) (xs : List A) (x : A) {y : A}
      → find p xs ≡ some y
      → find p (xs ++ x ∷ []) ≡ some y
  find-append_old p [] x h = absurd cc
  find-append_old p (a ∷ ys) x {y} h = ground (arith, find-append_old p ys x {y = y})

  pub find_fresh : (p : A → Bool) (xs : List A) → All (λ x. p x ≡ false) xs → find p xs ≡ none
  find_fresh p [] h = refl
  find_fresh p (y ∷ ys) h = ground (arith, h.0, find_fresh p ys h.1)

pub All-map {ℓ κ μ} :
    {A : Type ℓ} {P : A → Type κ} {Q : A → Type μ}
    → ((x : A) → P x → Q x)
    → (xs : List A) → All P xs
    → All Q xs
All-map f [] h = tt
All-map f (y ∷ ys) h = (f y h.0, All-map f ys h.1)

module _ {ℓ} {A : Type ℓ} where
  -- A row is replaced under a test that is weaker than the one that looks it up.
  pub find-update_first_const :
      (p hit : A → Bool) (y : A)
      → ((x : A) → p x ≡ true → hit x ≡ true)
      → p y ≡ true
      → (xs : List A) {x : A} → find p xs ≡ some x
      → find p (update_first hit (λ _. y) xs) ≡ some y
  find-update_first_const p hit y weaker now [] e = absurd cc
  find-update_first_const p hit y weaker now (z ∷ zs) {x} e =
      ground (arith, weaker z, find-update_first_const p hit y weaker now zs {x = x})

  pub any-mono_All {κ} :
      {P : A → Type κ} (p q : A → Bool)
      → ((x : A) → P x → p x ≡ true → q x ≡ true)
      → (xs : List A) → All P xs
      → any p xs ≡ true
      → any q xs ≡ true
  any-mono_All p q weaker [] h e = e
  any-mono_All p q weaker (x ∷ xs) h e =
      ground (arith, weaker x h.0, any-mono_All p q weaker xs h.1)

  -- The appended row is the one replaced, and it no longer passes.
  pub find-update_first_last :
      (p hit : A → Bool) (y x : A)
      → p y ≡ false
      → hit x ≡ true
      → (xs : List A) → All (λ z. hit z ≡ false) xs
      → find p xs ≡ none
      → find p (update_first hit (λ _. y) (xs ++ x ∷ [])) ≡ none
  find-update_first_last p hit y x gone here [] h e = ground arith
  find-update_first_last p hit y x gone here (z ∷ zs) h e =
      ground (arith, h.0, find-update_first_last p hit y x gone here zs h.1)
