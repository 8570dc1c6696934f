-- ===== src/Base/Batches.antt =====
-- A filtered, sorted and cut list holds every row that passes the filter, if it is not too long.
use Prim.Native.Nat.{ℕ, zero, suc, ◌≤◌}
use mathlib.Core.Path.{◌≡◌, refl, ap, ◌∙◌, subst, sym}
use mathlib.Core.Logic.{◌⊎◌, inl, inr}
use mathlib.Core.Bool.{Bool, true, false}
use mathlib.Core.List.{List, [], ◌∷◌, ◌++◌, Memᴰ}
use native.Mathlib.Omega.{arith}
use ivis_backend.Base.Lists.{keep, take, tally, sort_by, insert_by, length, update_first}

module _ {ℓ} {A : Type ℓ} where
  length-keep : (p : A → Bool) (xs : List A) → length (keep p xs) ≡ tally p xs
  length-keep p [] = refl
  length-keep p (y ∷ ys) = ground (arith, length-keep p ys)

  length-insert_by :
      (before : A → A → Bool) (z : A) (xs : List A)
      → length (insert_by before z xs) ≡ suc (length xs)
  unfolding insert_by
  length-insert_by before z [] = refl
  length-insert_by before z (y ∷ ys) = ground (arith, length-insert_by before z ys)

  length-sort_by : (before : A → A → Bool) (xs : List A) → length (sort_by before xs) ≡ length xs
  unfolding sort_by
  length-sort_by before [] = refl
  length-sort_by before (y ∷ ys) =
      length-insert_by before y (sort_by before ys) ∙ ap suc (length-sort_by before ys)

  take_whole : (n : ℕ) (xs : List A) → length xs ≤ n → take n xs ≡ xs
  take_whole zero [] h = refl
  take_whole zero (y ∷ ys) h = absurd (omega arith)
  take_whole (suc n) [] h = refl
  take_whole (suc n) (y ∷ ys) h = ap (λ zs. y ∷ zs) (take_whole n ys (omega arith))

  keep-Memᴰ : (p : A → Bool) (xs : List A) {x : A} → Memᴰ x xs → p x ≡ true → Memᴰ x (keep p xs)
  keep-Memᴰ p [] m h = elim m [ ]
  keep-Memᴰ p (y ∷ ys) {x} m h = go (λ m'. keep-Memᴰ p ys m' h) (p y) refl m
    where
      go :
          (Memᴰ x ys → Memᴰ x (keep p ys))
          → (b : Bool) → p y ≡ b
          → Memᴰ x (y ∷ ys)
          → Memᴰ x (elim b [ true ↦ y ∷ keep p ys | false ↦ keep p ys ])
      go ih true e (Memᴰ.head same) = Memᴰ.head same
      go ih true e (Memᴰ.tail m) = Memᴰ.tail (ih m)
      go ih false e (Memᴰ.head same) = let pass = ap p same in absurd cc
      go ih false e (Memᴰ.tail m) = ih m

  insert_by-Memᴰ-head :
      (before : A → A → Bool) (z : A) (xs : List A) {x : A} → x ≡ z → Memᴰ x (insert_by before z xs)
  unfolding insert_by
  insert_by-Memᴰ-head before z [] same = Memᴰ.head same
  insert_by-Memᴰ-head before z (y ∷ ys) {x} same =
      go (insert_by-Memᴰ-head before z ys same) (before y z)
    where
      go :
          Memᴰ x (insert_by before z ys)
          → (b : Bool) → Memᴰ x (elim b [ true ↦ y ∷ insert_by before z ys | false ↦ z ∷ y ∷ ys ])
      go ih true = Memᴰ.tail ih
      go ih false = Memᴰ.head same

  insert_by-Memᴰ-tail :
      (before : A → A → Bool) (z : A) (xs : List A) {x : A}
      → Memᴰ x xs
      → Memᴰ x (insert_by before z xs)
  unfolding insert_by
  insert_by-Memᴰ-tail before z [] m = elim m [ ]
  insert_by-Memᴰ-tail before z (y ∷ ys) {x} m = go (insert_by-Memᴰ-tail before z ys) (before y z) m
    where
      go :
          (Memᴰ x ys → Memᴰ x (insert_by before z ys))
          → (b : Bool) → Memᴰ x (y ∷ ys)
          → Memᴰ x (elim b [ true ↦ y ∷ insert_by before z ys | false ↦ z ∷ y ∷ ys ])
      go ih true (Memᴰ.head same) = Memᴰ.head same
      go ih true (Memᴰ.tail m) = Memᴰ.tail (ih m)
      go ih false m = Memᴰ.tail m

  sort_by-Memᴰ :
      (before : A → A → Bool) (xs : List A) {x : A} → Memᴰ x xs → Memᴰ x (sort_by before xs)
  unfolding sort_by
  sort_by-Memᴰ before [] m = m
  sort_by-Memᴰ before (y ∷ ys) (Memᴰ.head same) =
      insert_by-Memᴰ-head before y (sort_by before ys) same
  sort_by-Memᴰ before (y ∷ ys) (Memᴰ.tail m) =
      insert_by-Memᴰ-tail before y (sort_by before ys) (sort_by-Memᴰ before ys m)

  -- `WHERE … ORDER BY … LIMIT n`, where at most n rows pass.
  pub batch-Memᴰ :
      (n : ℕ) (before : A → A → Bool) (p : A → Bool) (xs : List A) {x : A}
      → Memᴰ x xs
      → p x ≡ true
      → tally p xs ≤ n
      → Memᴰ x (take n (sort_by before (keep p xs)))
  batch-Memᴰ n before p xs {x} m h few =
      let short : length (sort_by before (keep p xs)) ≤ n =
        rw (length-sort_by before (keep p xs) ∙ length-keep p xs) few in
      subst (λ ys. Memᴰ x ys) (sym (take_whole n (sort_by before (keep p xs)) short))
        (sort_by-Memᴰ before (keep p xs) (keep-Memᴰ p xs m h))

  pub append_one-Memᴰ : (xs : List A) (y : A) {x : A} → Memᴰ x (xs ++ y ∷ []) → Memᴰ x xs ⊎ (x ≡ y)
  append_one-Memᴰ [] y (Memᴰ.head same) = inr same
  append_one-Memᴰ [] y (Memᴰ.tail m) = elim m [ ]
  append_one-Memᴰ (z ∷ xs) y (Memᴰ.head same) = inl (Memᴰ.head same)
  append_one-Memᴰ (z ∷ xs) y (Memᴰ.tail m) = elim (append_one-Memᴰ xs y m) [
    | inl old ↦ inl (Memᴰ.tail old)
    | inr new ↦ inr new
  ]

  pub update_first-Memᴰ :
      (p : A → Bool) (y : A) (xs : List A) {x : A}
      → Memᴰ x (update_first p (λ _. y) xs)
      → Memᴰ x xs ⊎ (x ≡ y)
  update_first-Memᴰ p y [] m = elim m [ ]
  update_first-Memᴰ p y (z ∷ xs) {x} m = go (update_first-Memᴰ p y xs) (p z) m
    where
      go :
          (Memᴰ x (update_first p (λ _. y) xs) → Memᴰ x xs ⊎ (x ≡ y))
          → (b : Bool) → Memᴰ x (elim b [ true ↦ y ∷ xs | false ↦ z ∷ update_first p (λ _. y) xs ])
          → Memᴰ x (z ∷ xs) ⊎ (x ≡ y)
      go ih true (Memᴰ.head same) = inr same
      go ih true (Memᴰ.tail m) = inl (Memᴰ.tail m)
      go ih false (Memᴰ.head same) = inl (Memᴰ.head same)
      go ih false (Memᴰ.tail m) = elim (ih m) [ inl old ↦ inl (Memᴰ.tail old) | inr new ↦ inr new ]
