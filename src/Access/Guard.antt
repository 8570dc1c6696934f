-- ===== src/Access/Guard.antt =====
-- guards/permissions.guard.ts: which requests the resolved permissions of a user let through.
use ivis_backend.Base.{
  Bool, true, false, ◌||◌, List, [], ◌∷◌, Text, all, if◌then◌else◌, ◌≡◌, refl, ◌∙◌,
}
use ivis_backend.Access.Matrix.{StoredMatrix, normalize_role_access_matrix}
use ivis_backend.Access.Resolve.{has_key, resolve_flat_permissions_from_matrix}
use ivis_backend.Access.Granted.{is_granted, resolve_permissions-granted}

abbrev pub has_none : List Text → Bool
has_none [] = true
has_none (k ∷ keys) = false

-- `canActivate`, false where it throws. A handler that requires nothing has no `required` keys.
unfoldable pub can_activate : Bool → List Text → List Text → Bool
can_activate is_public required resolved =
    if is_public
    then true
    else if has_none required
    then true
    else all (λ k. has_key k resolved) required

all-cong :
    (p q : Text → Bool) → ((k : Text) → p k ≡ q k) → (keys : List Text) → all p keys ≡ all q keys
all-cong p q same [] = refl
all-cong p q same (k ∷ keys) = cc (same k, all-cong p q same keys)

all_required :
    (p : Text → Bool) (required : List Text)
    → (if has_none required then true else all p required) ≡ all p required
all_required p [] = refl
all_required p (k ∷ required) = refl

-- The permissions that a stored matrix, complete or not, is resolved to pass the guard of a handler exactly
-- if the handler is public or the normal form of the matrix grants every key that it requires.
pub can_activate-granted :
    (is_public : Bool) (required : List Text) (stored : StoredMatrix)
    → can_activate is_public required (resolve_flat_permissions_from_matrix stored)
      ≡ is_public || all (λ k. is_granted k (normalize_role_access_matrix stored)) required
unfolding can_activate
can_activate-granted true required stored = refl
can_activate-granted false required stored =
    all_required (λ k. has_key k (resolve_flat_permissions_from_matrix stored)) required
    ∙ all-cong (λ k. has_key k (resolve_flat_permissions_from_matrix stored))
        (λ k. is_granted k (normalize_role_access_matrix stored))
        (λ k. resolve_permissions-granted k stored) required
