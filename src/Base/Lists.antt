-- ===== src/Base/Lists.antt =====
-- Lists measured by native numbers, searched and filtered by Boolean tests, and sorted by a key.
use Prim.Native.Nat.{ℕ, zero, suc, ◌+◌}
use mathlib.Core.Path.{◌≡◌}
use mathlib.Core.Bool.{Bool, true, false, ◌&&◌, ◌||◌}
use mathlib.Core.List.{List, [], ◌∷◌, ◌++◌}
use mathlib.Core.Option.{Option, none, some}
use native.Mathlib.Omega.{arith}
use ivis_backend.Base.Tests.{◌==◌}

module _ {ℓ} {A : Type ℓ} where
  abbrev pub length : List A → ℕ
  length [] = 0
  length (x ∷ xs) = suc (length xs)

  abbrev pub take : ℕ → List A → List A
  take zero xs = []
  take (suc n) [] = []
  take (suc n) (x ∷ xs) = x ∷ take n xs

  -- `xs.find(p)`
  abbrev pub find : (A → Bool) → List A → Option A
  find p [] = none
  find p (x ∷ xs) = elim (p x) [ true ↦ some x | false ↦ find p xs ]

  -- `xs.filter(p)`
  abbrev pub keep : (A → Bool) → List A → List A
  keep p [] = []
  keep p (x ∷ xs) = elim (p x) [ true ↦ x ∷ keep p xs | false ↦ keep p xs ]

  -- `xs.some(p)`
  abbrev pub any : (A → Bool) → List A → Bool
  any p [] = false
  any p (x ∷ xs) = p x || any p xs

  -- `xs.every(p)`
  abbrev pub all : (A → Bool) → List A → Bool
  all p [] = true
  all p (x ∷ xs) = p x && all p xs

  -- How many elements pass the test.
  abbrev pub tally : (A → Bool) → List A → ℕ
  tally p [] = 0
  tally p (x ∷ xs) = elim (p x) [ true ↦ suc (tally p xs) | false ↦ tally p xs ]

  -- `UPDATE … WHERE <key> = …`: the first row that the test hits is changed.
  abbrev pub update_first : (A → Bool) → (A → A) → List A → List A
  update_first hit f [] = []
  update_first hit f (x ∷ xs) = elim (hit x) [ true ↦ f x ∷ xs | false ↦ x ∷ update_first hit f xs ]

  unfoldable pub insert_by : (A → A → Bool) → A → List A → List A
  insert_by before x [] = x ∷ []
  insert_by before x (y ∷ ys) = elim (before y x) [
    | true ↦ y ∷ insert_by before x ys
    | false ↦ x ∷ y ∷ ys
  ]

  -- A stable sort; `before a b` says that `a` may stand before `b`.
  unfoldable pub sort_by : (A → A → Bool) → List A → List A
  unfolding insert_by
  sort_by before [] = []
  sort_by before (x ∷ xs) = insert_by before x (sort_by before xs)

  pub tally-append : (p : A → Bool) (xs ys : List A) → tally p (xs ++ ys) ≡ tally p xs + tally p ys
  tally-append p [] ys = omega arith
  tally-append p (x ∷ xs) ys = ground (arith, tally-append p xs ys)

abbrev pub one_if : Bool → ℕ
one_if true = 1
one_if false = 0

module _ {ℓ} {A : Type ℓ} where
  abbrev pub first : List A → Option A
  first [] = none
  first (x ∷ _) = some x

module _ {ℓ κ} {A : Type ℓ} where
  -- Every element has the property.
  abbrev pub All : (A → Type κ) → List A → Type κ
  All P [] = Unit
  All P (x ∷ xs) = P x × All P xs

-- A JavaScript `Map` with number keys: a key keeps the place of its first insertion.
module _ {ℓ} {V : Type ℓ} where
  abbrev pub map_set : ℕ → V → List (ℕ × V) → List (ℕ × V)
  map_set k v [] = (k, v) ∷ []
  map_set k v ((j, w) ∷ m) = elim (j == k) [ true ↦ (k, v) ∷ m | false ↦ (j, w) ∷ map_set k v m ]

  abbrev pub map_get : ℕ → List (ℕ × V) → Option V
  map_get k [] = none
  map_get k ((j, w) ∷ m) = elim (j == k) [ true ↦ some w | false ↦ map_get k m ]

  abbrev pub keys : List (ℕ × V) → List ℕ
  keys [] = []
  keys ((j, _) ∷ m) = j ∷ keys m
