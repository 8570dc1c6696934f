-- ===== src/Base/Objects.antt =====
-- The own properties of a JavaScript object with string keys, in the order in which they are enumerated.
use mathlib.Core.Path.{◌≡◌, refl}
use mathlib.Core.Bool.{Bool, true, false, ◌&&◌, not}
use mathlib.Core.List.{List, [], ◌∷◌, ◌++◌}
use mathlib.Core.Option.{Option, none, some}
use native.Mathlib.Omega.{arith}
use ivis_backend.Base.Texts.{Text, text_eq, text_eq_refl}

pub text_eq_sym : (s t : Text) → text_eq s t ≡ text_eq t s
text_eq_sym [] [] = refl
text_eq_sym (a ∷ s) [] = refl
text_eq_sym [] (b ∷ t) = refl
text_eq_sym (a ∷ s) (b ∷ t) = ground (arith, text_eq_sym s t)

module _ {ℓ} {V : Type ℓ} where
  -- `o[k] = v` for a key that is there, or a new one that stands behind all others.
  abbrev pub entry_set : Text → V → List (Text × V) → List (Text × V)
  entry_set k v [] = (k, v) ∷ []
  entry_set k v ((j, w) ∷ o) = elim (text_eq j k) [
    | true ↦ (k, v) ∷ o
    | false ↦ (j, w) ∷ entry_set k v o
  ]

  -- `o[k]`
  abbrev pub entry_get : Text → List (Text × V) → Option V
  entry_get k [] = none
  entry_get k ((j, w) ∷ o) = elim (text_eq j k) [ true ↦ some w | false ↦ entry_get k o ]

  -- No entry of `o` has the key `k`.
  abbrev pub lacks : Text → List (Text × V) → Bool
  lacks k [] = true
  lacks k ((j, w) ∷ o) = not (text_eq j k) && lacks k o

  -- No key of the second object is a key of the first.
  abbrev pub are_fresh : List (Text × V) → List (Text × V) → Bool
  are_fresh done [] = true
  are_fresh done ((j, w) ∷ o) = lacks j done && are_fresh done o

  pub entry_set_new :
      (k : Text) (v : V) (o : List (Text × V))
      → lacks k o ≡ true
      → entry_set k v o ≡ o ++ (k, v) ∷ []
  entry_set_new k v [] h = refl
  entry_set_new k v ((j, w) ∷ o) h = ground (arith, entry_set_new k v o)

  pub entry_get-set :
      (k : Text) (v : V) (o : List (Text × V)) → entry_get k (entry_set k v o) ≡ some v
  entry_get-set k v [] = ground (arith, text_eq_refl k)
  entry_get-set k v ((j, w) ∷ o) = ground (arith, text_eq_refl k, entry_get-set k v o)

  -- The last entry is replaced where only it has the key.
  pub entry_set_last :
      (k : Text) (v w : V) (o : List (Text × V))
      → lacks k o ≡ true
      → entry_set k v (o ++ (k, w) ∷ []) ≡ o ++ (k, v) ∷ []
  entry_set_last k v w [] h = ground (arith, text_eq_refl k)
  entry_set_last k v w ((j, x) ∷ o) h = ground (arith, entry_set_last k v w o)

  pub entry_get_last :
      (k : Text) (w : V) (o : List (Text × V))
      → lacks k o ≡ true
      → entry_get k (o ++ (k, w) ∷ []) ≡ some w
  entry_get_last k w [] h = ground (arith, text_eq_refl k)
  entry_get_last k w ((j, x) ∷ o) h = ground (arith, entry_get_last k w o)

  pub entry_get_new : (k : Text) (o : List (Text × V)) → lacks k o ≡ true → entry_get k o ≡ none
  entry_get_new k [] h = refl
  entry_get_new k ((j, x) ∷ o) h = ground (arith, entry_get_new k o)

  pub are_fresh_nil : (o : List (Text × V)) → are_fresh [] o ≡ true
  are_fresh_nil [] = refl
  are_fresh_nil ((j, w) ∷ o) = are_fresh_nil o

  lacks-append_one :
      (k j : Text) (v : V) (o : List (Text × V))
      → lacks k o ≡ true
      → text_eq j k ≡ false
      → lacks k (o ++ (j, v) ∷ []) ≡ true
  lacks-append_one k j v [] h other = ground arith
  lacks-append_one k j v ((i, w) ∷ o) h other = ground (arith, lacks-append_one k j v o)

  pub are_fresh-append_one :
      (k : Text) (v : V) (done o : List (Text × V))
      → are_fresh done o ≡ true
      → lacks k o ≡ true
      → are_fresh (done ++ (k, v) ∷ []) o ≡ true
  are_fresh-append_one k v done [] h l = refl
  are_fresh-append_one k v done ((j, w) ∷ o) h l =
      ground (arith, text_eq_sym j k, lacks-append_one j k v done, are_fresh-append_one k v done o)
