-- ===== src/Base/Search.antt =====
-- What searching, filtering, sorting and updating a list find and keep.
use Prim.Native.Nat.{ℕ, zero, suc, ◌+◌, ◌≤◌, ◌<◌}
use mathlib.Core.Path.{◌≡◌, refl, ap, subst}
use mathlib.Core.Logic.{◌≢◌, ◌⊎◌, inl, inr}
use mathlib.Core.Bool.{Bool, true, false}
use mathlib.Core.List.{List, [], ◌∷◌, ◌++◌, Memᴰ, map}
use mathlib.Core.Option.{none, some}
use native.Mathlib.Omega.{arith}
use ivis_backend.Base.Tests.{Bool-cases}
use ivis_backend.Base.Lists.{
  find, keep, take, tally, update_first, sort_by, insert_by, first, one_if, All,
}

module _ {ℓ} {A : Type ℓ} where
  -- An update of one row moves a count by what it does to that row.
  pub tally-update_first :
      (p hit : A → Bool) (f : A → A) (xs : List A) {x : A}
      → find hit xs ≡ some x
      → tally p (update_first hit f xs) + one_if (p x) ≡ tally p xs + one_if (p (f x))
  tally-update_first p hit f [] e = cc
  tally-update_first p hit f (y ∷ ys) {x} e = ground (arith, tally-update_first p hit f ys {x = x})

  -- An update that leaves a test alone leaves its count alone.
  pub tally-update_first_same :
      (p hit : A → Bool) (f : A → A)
      → ((x : A) → p (f x) ≡ p x)
      → (xs : List A) → tally p (update_first hit f xs) ≡ tally p xs
  tally-update_first_same p hit f same [] = refl
  tally-update_first_same p hit f same (y ∷ ys) =
      ground (arith, same y, tally-update_first_same p hit f same ys)

  pub find_passes : (p : A → Bool) (xs : List A) {x : A} → find p xs ≡ some x → p x ≡ true
  find_passes p [] e = cc
  find_passes p (y ∷ ys) {x} e = ground (arith, find_passes p ys {x = x})

  pub find-update_first :
      (hit : A → Bool) (f : A → A) (xs : List A) {x : A}
      → find hit xs ≡ some x
      → hit (f x) ≡ true
      → find hit (update_first hit f xs) ≡ some (f x)
  find-update_first hit f [] e h = cc
  find-update_first hit f (y ∷ ys) {x} e h = ground (arith, find-update_first hit f ys {x = x})

  -- An update does not change what a test finds that the changed row fails before and after.
  pub find-update_first_other :
      (p hit : A → Bool) (f : A → A)
      → ((x : A) → hit x ≡ true → p x ≡ false)
      → ((x : A) → hit x ≡ true → p (f x) ≡ false)
      → (xs : List A) → find p (update_first hit f xs) ≡ find p xs
  find-update_first_other p hit f before after [] = refl
  find-update_first_other p hit f before after (y ∷ ys) =
      ground (arith, before y, after y, find-update_first_other p hit f before after ys)

  -- Two tests that find the same row find it updated.
  pub find-update_first_both :
      (p hit : A → Bool) (f : A → A) (xs : List A) {x : A}
      → find hit xs ≡ some x
      → find p xs ≡ some x
      → p (f x) ≡ true
      → find p (update_first hit f xs) ≡ some (f x)
  find-update_first_both p hit f [] e d h = cc
  find-update_first_both p hit f (y ∷ ys) {x} e d h = ground (
    arith,
    find_passes hit (y ∷ ys) {x = x} e,
    find_passes p (y ∷ ys) {x = x} d,
    find-update_first_both p hit f ys {x = x},
  )

  pub find-update_first-none :
      (p hit : A → Bool) (f : A → A)
      → ((x : A) → p (f x) ≡ p x)
      → (xs : List A) → find p xs ≡ none
      → find p (update_first hit f xs) ≡ none
  find-update_first-none p hit f same [] e = refl
  find-update_first-none p hit f same (y ∷ ys) e =
      ground (arith, same y, find-update_first-none p hit f same ys)

  pub Memᴰ-keep :
      (p : A → Bool) (xs : List A) {x : A} → Memᴰ x (keep p xs) → Memᴰ x xs × (p x ≡ true)
  Memᴰ-keep p [] m = elim m [ ]
  Memᴰ-keep p (y ∷ ys) {x} m = go (Memᴰ-keep p ys) (p y) refl m
    where
      go :
          (Memᴰ x (keep p ys) → Memᴰ x ys × (p x ≡ true))
          → (b : Bool) → p y ≡ b
          → Memᴰ x (elim b [ true ↦ y ∷ keep p ys | false ↦ keep p ys ])
          → Memᴰ x (y ∷ ys) × (p x ≡ true)
      go ih true e (Memᴰ.head same) = (Memᴰ.head same, rw same e)
      go ih true e (Memᴰ.tail m) = let (there, pass) = ih m in (Memᴰ.tail there, pass)
      go ih false e m = let (there, pass) = ih m in (Memᴰ.tail there, pass)

  Memᴰ-insert_by :
      (before : A → A → Bool) (z : A) (xs : List A) {x : A}
      → Memᴰ x (insert_by before z xs)
      → (x ≡ z) ⊎ Memᴰ x xs
  unfolding insert_by
  Memᴰ-insert_by before z [] (Memᴰ.head same) = inl same
  Memᴰ-insert_by before z [] (Memᴰ.tail m) = elim m [ ]
  Memᴰ-insert_by before z (y ∷ ys) {x} m = go (Memᴰ-insert_by before z ys) (before y z) m
    where
      go :
          (Memᴰ x (insert_by before z ys) → (x ≡ z) ⊎ Memᴰ x ys)
          → (b : Bool) → Memᴰ x (elim b [ true ↦ y ∷ insert_by before z ys | false ↦ z ∷ y ∷ ys ])
          → (x ≡ z) ⊎ Memᴰ x (y ∷ ys)
      go ih true (Memᴰ.head same) = inr (Memᴰ.head same)
      go ih true (Memᴰ.tail m) = elim (ih m) [
        | inl same ↦ inl same
        | inr there ↦ inr (Memᴰ.tail there)
      ]
      go ih false (Memᴰ.head same) = inl same
      go ih false (Memᴰ.tail m) = inr m

  pub Memᴰ-sort_by :
      (before : A → A → Bool) (xs : List A) {x : A} → Memᴰ x (sort_by before xs) → Memᴰ x xs
  unfolding sort_by
  Memᴰ-sort_by before [] m = m
  Memᴰ-sort_by before (y ∷ ys) {x} m = elim (Memᴰ-insert_by before y (sort_by before ys) m) [
    | inl same ↦ Memᴰ.head same
    | inr there ↦ Memᴰ.tail (Memᴰ-sort_by before ys there)
  ]

  Memᴰ-first : (xs : List A) {x : A} → first xs ≡ some x → Memᴰ x xs
  Memᴰ-first [] e = cc
  Memᴰ-first (y ∷ ys) e = Memᴰ.head (cc)

  -- What `ORDER BY … LIMIT 1` over a filter returns is a row that passes the filter.
  pub first-sort_by-keep :
      (before : A → A → Bool) (p : A → Bool) (xs : List A) {x : A}
      → first (sort_by before (keep p xs)) ≡ some x
      → Memᴰ x xs × (p x ≡ true)
  first-sort_by-keep before p xs e =
      Memᴰ-keep p xs (Memᴰ-sort_by before (keep p xs) (Memᴰ-first (sort_by before (keep p xs)) e))

  pub tally_pos : (p : A → Bool) (xs : List A) {x : A} → Memᴰ x xs → p x ≡ true → 0 < tally p xs
  tally_pos p [] m h = elim m [ ]
  tally_pos p (y ∷ ys) (Memᴰ.head same) h = ground (arith, ap p same)
  tally_pos p (y ∷ ys) {x} (Memᴰ.tail m) h = ground (arith, tally_pos p ys {x = x} m h)

  pub tally_mono :
      (p q : A → Bool)
      → ((x : A) → p x ≡ true → q x ≡ true)
      → (xs : List A) → tally p xs ≤ tally q xs
  tally_mono p q h [] = omega arith
  tally_mono p q h (y ∷ ys) = ground (arith, h y, tally_mono p q h ys)

  insert_by-ne_nil :
      (before : A → A → Bool) (z : A) (xs : List A) → first (insert_by before z xs) ≢ none
  unfolding insert_by
  insert_by-ne_nil before z [] = ground arith
  insert_by-ne_nil before z (y ∷ ys) = ground arith

  -- It returns nothing only if no row passes.
  pub first-sort_by-keep-none :
      (before : A → A → Bool) (p : A → Bool) (xs : List A)
      → first (sort_by before (keep p xs)) ≡ none
      → tally p xs ≡ 0
  unfolding sort_by
  first-sort_by-keep-none before p [] e = refl
  first-sort_by-keep-none before p (y ∷ ys) e = ground (
    arith,
    insert_by-ne_nil before y (sort_by before (keep p ys)),
    first-sort_by-keep-none before p ys,
  )

  -- Where at most one row passes a test, a row that passes is the one that is found.
  pub find_unique :
      (p : A → Bool) (xs : List A) {x : A}
      → Memᴰ x xs
      → p x ≡ true
      → tally p xs ≤ 1
      → find p xs ≡ some x
  find_unique p [] m h u = elim m [ ]
  find_unique p (y ∷ ys) (Memᴰ.head same) h u = ground (arith, ap p same)
  find_unique p (y ∷ ys) {x} (Memᴰ.tail m) h u =
      ground (arith, tally_pos p ys {x = x} m h, find_unique p ys {x = x} m h)

  pub find-none : (p : A → Bool) (xs : List A) → tally p xs ≡ 0 → find p xs ≡ none
  find-none p [] e = refl
  find-none p (y ∷ ys) e = ground (arith, find-none p ys)

module _ {ℓ κ} {A : Type ℓ} (P : A → Type κ) where
  pub All-append_one : (xs : List A) (x : A) → All P xs → P x → All P (xs ++ x ∷ [])
  All-append_one [] x h p = (p, tt)
  All-append_one (y ∷ ys) x h p = (h.0, All-append_one ys x h.1 p)

  pub All-update_first :
      (hit : A → Bool) (f : A → A)
      → ((x : A) → P x → P (f x))
      → (xs : List A) → All P xs
      → All P (update_first hit f xs)
  All-update_first hit f keeps [] h = tt
  All-update_first hit f keeps (y ∷ ys) h = elim (Bool-cases (hit y)) [
    | inl here ↦ rw (here, update_first) (keeps y h.0, h.1)
    | inr later ↦ rw (later, update_first) (h.0, All-update_first hit f keeps ys h.1)
  ]

  pub All-find : (p : A → Bool) (xs : List A) {x : A} → All P xs → find p xs ≡ some x → P x
  All-find p [] h e = cc
  All-find p (y ∷ ys) {x} h e = elim (Bool-cases (p y)) [
    | inl here ↦ let same : y ≡ x = ground arith in subst P same h.0
    | inr later ↦ All-find p ys h.1 (ground arith)
  ]

module _ {ℓ} {A : Type ℓ} where
  pub Memᴰ-take : (n : ℕ) (xs : List A) {x : A} → Memᴰ x (take n xs) → Memᴰ x xs
  Memᴰ-take zero xs m = elim m [ ]
  Memᴰ-take (suc n) [] m = elim m [ ]
  Memᴰ-take (suc n) (y ∷ ys) (Memᴰ.head same) = Memᴰ.head same
  Memᴰ-take (suc n) (y ∷ ys) (Memᴰ.tail m) = Memᴰ.tail (Memᴰ-take n ys m)

  pub Memᴰ-find : (p : A → Bool) (xs : List A) {x : A} → find p xs ≡ some x → Memᴰ x xs
  Memᴰ-find p [] e = cc
  Memᴰ-find p (y ∷ ys) {x} e = elim (Bool-cases (p y)) [
    | inl here ↦ Memᴰ.head (ground arith)
    | inr later ↦ Memᴰ.tail (Memᴰ-find p ys (ground arith))
  ]

  -- A change of the rows that the test does not see is found changed.
  pub find-map :
      (p : A → Bool) (g : A → A)
      → ((x : A) → p (g x) ≡ p x)
      → (xs : List A) {x : A} → find p xs ≡ some x
      → find p (map g xs) ≡ some (g x)
  find-map p g same [] e = cc
  find-map p g same (y ∷ ys) {x} e = ground (arith, same y, find-map p g same ys {x = x})
