-- ===== src/Access/RoundTrip.antt =====
-- A role's keys, turned into a matrix and resolved again.
use ivis_backend.Base.{
  Bool, true, false, ◌&&◌, ◌||◌, some, List, map, Text, text, ◌≡◌, refl, ap, ◌∙◌,
}
use ivis_backend.Access.Matrix.{
  ModuleCrudFlags, ModuleAccess, RoleAccessMatrix, StoredFlags, StoredModule, StoredMatrix,
  normalize_role_access_matrix,
}
use ivis_backend.Access.Resolve.{
  has_key, resolve_flat_permissions_from_matrix, matrix_from_flat_permissions,
}
use ivis_backend.Access.Granted.{is_granted, resolve_permissions-granted}

-- A matrix as it is stored.
abbrev pub stored_flags : ModuleCrudFlags → StoredFlags
stored_flags f = record { create = some f.create; edit = some f.edit; view = some f.view }

abbrev pub stored_entry : Text × ModuleAccess → Text × StoredModule
stored_entry (name, access) = (
  name,
  record {
    flags = stored_flags access.flags;
    submodules = some (map (λ s. (s.0, stored_flags s.1)) access.submodules);
  },
)

abbrev pub stored_of : RoleAccessMatrix → StoredMatrix
stored_of m = map stored_entry m

-- A matrix that was stored in full is its own normal form.
normalize-matrix_from :
    (flat : List Text)
    → normalize_role_access_matrix (stored_of (matrix_from_flat_permissions flat))
      ≡ matrix_from_flat_permissions flat
unfolding normalize_role_access_matrix matrix_from_flat_permissions
normalize-matrix_from flat = refl

granted_jobs :
    (flat : List Text)
    → is_granted (text "JOBS_DELETE") (matrix_from_flat_permissions flat)
      ≡ has_key (text "JOBS_UPSERT") flat || has_key (text "JOBS_DELETE") flat
unfolding is_granted matrix_from_flat_permissions
granted_jobs flat = go (has_key (text "JOBS_UPSERT") flat) (has_key (text "JOBS_DELETE") flat)
  where
    go : (a b : Bool) → ((a || (b || false)) || false) || false ≡ a || b
    go true b = refl
    go false true = refl
    go false false = refl

granted_appointments :
    (flat : List Text)
    → is_granted (text "APPOINTMENTS_CREATE") (matrix_from_flat_permissions flat)
      ≡ has_key (text "APPOINTMENTS_CREATE") flat && has_key (text "APPOINTMENTS_VIEW") flat
unfolding is_granted matrix_from_flat_permissions
granted_appointments flat =
    go (has_key (text "APPOINTMENTS_CREATE") flat) (has_key (text "APPOINTMENTS_VIEW") flat)
  where
    go :
        (a b : Bool)
        → ((((a || false) || false) || false) && ((b || false) || ((b || false) || false))) || false
          ≡ a && b
    go true true = refl
    go true false = refl
    go false b = refl

-- No matrix grants the key to act as another user.
never_granted : (m : RoleAccessMatrix) → is_granted (text "USER_IMPERSONATE") m ≡ false
unfolding is_granted
never_granted m = refl

-- Of the keys that a list of keys, stored as a matrix, is resolved to: the one to delete jobs is among them
-- exactly if the one to update or the one to delete jobs was listed, the one to create appointments exactly
-- if both the one to create and the one to view them were, and the one to act as another user never.
pub resolve_permissions-matrix_from :
    (flat : List Text)
    → let resolved =
        resolve_flat_permissions_from_matrix (stored_of (matrix_from_flat_permissions flat)) in
      (has_key (text "JOBS_DELETE") resolved
        ≡ has_key (text "JOBS_UPSERT") flat || has_key (text "JOBS_DELETE") flat)
      × (has_key (text "APPOINTMENTS_CREATE") resolved
          ≡ has_key (text "APPOINTMENTS_CREATE") flat && has_key (text "APPOINTMENTS_VIEW") flat)
      × (has_key (text "USER_IMPERSONATE") resolved ≡ false)
resolve_permissions-matrix_from flat =
    let stored = stored_of (matrix_from_flat_permissions flat) in
    (
      resolve_permissions-granted (text "JOBS_DELETE") stored
          ∙ ap (is_granted (text "JOBS_DELETE")) (normalize-matrix_from flat)
          ∙ granted_jobs flat,
      resolve_permissions-granted (text "APPOINTMENTS_CREATE") stored
          ∙ ap (is_granted (text "APPOINTMENTS_CREATE")) (normalize-matrix_from flat)
          ∙ granted_appointments flat,
      resolve_permissions-granted (text "USER_IMPERSONATE") stored
          ∙ never_granted (normalize_role_access_matrix stored),
    )
