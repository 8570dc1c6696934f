-- ===== src/Access/Users.antt =====
-- `resolveUserPermissions` of modules/auth/service/auth.service.ts.
use ivis_backend.Base.{
  ℕ, Bool, false, Option, none, some, List, [], ◌∷◌, Text, text, text_eq, if◌then◌else◌,
}
use ivis_backend.Access.Matrix.{StoredMatrix}
use ivis_backend.Access.Resolve.{add_key, resolve_flat_permissions_from_matrix}

-- ALL_PERMISSION_KEYS of common/constants/permissions.ts.
unfoldable pub all_permission_keys : List Text
all_permission_keys =
    text "USER_VIEW"
    ∷ text "USER_CREATE"
    ∷ text "USER_EDIT"
    ∷ text "USER_DELETE"
    ∷ text "USER_IMPERSONATE"
    ∷ text "ROLES_CREATE"
    ∷ text "ROLES_VIEW"
    ∷ text "ROLES_UPSERT"
    ∷ text "ROLES_DELETE"
    ∷ text "PERMISSIONS_CREATE"
    ∷ text "PERMISSIONS_VIEW"
    ∷ text "PERMISSIONS_UPSERT"
    ∷ text "PERMISSIONS_DELETE"
    ∷ text "MASTERS_CREATE"
    ∷ text "MASTERS_VIEW"
    ∷ text "MASTERS_UPSERT"
    ∷ text "MASTERS_DELETE"
    ∷ text "ANPR_CREATE"
    ∷ text "ANPR_VIEW"
    ∷ text "ANPR_UPSERT"
    ∷ text "ANPR_DELETE"
    ∷ text "ROP_CREATE"
    ∷ text "ROP_VIEW"
    ∷ text "ROP_UPSERT"
    ∷ text "ROP_DELETE"
    ∷ text "VEHICLE_RECORDS_CREATE"
    ∷ text "VEHICLE_RECORDS_VIEW"
    ∷ text "VEHICLE_RECORDS_UPSERT"
    ∷ text "VEHICLE_RECORDS_DELETE"
    ∷ text "CUSTOMERS_CREATE"
    ∷ text "CUSTOMERS_VIEW"
    ∷ text "CUSTOMERS_UPSERT"
    ∷ text "CUSTOMERS_DELETE"
    ∷ text "PAYMENTS_CREATE"
    ∷ text "PAYMENTS_VIEW"
    ∷ text "PAYMENTS_UPSERT"
    ∷ text "PAYMENTS_DELETE"
    ∷ text "APPOINTMENTS_CREATE"
    ∷ text "APPOINTMENTS_VIEW"
    ∷ text "APPOINTMENTS_UPSERT"
    ∷ text "APPOINTMENTS_DELETE"
    ∷ text "JOBS_CREATE"
    ∷ text "JOBS_VIEW"
    ∷ text "JOBS_UPSERT"
    ∷ text "JOBS_DELETE"
    ∷ text "DASHBOARD_VIEW"
    ∷ text "REPORTS_VIEW"
    ∷ text "CONFIGURATION_VIEW"
    ∷ text "CONFIGURATION_UPSERT"
    ∷ text "FILE_PROCESSING_VIEW"
    ∷ text "AUDIT_VIEW"
    ∷ []

pub record Permission : Type 0 where
  pub access : StoredMatrix
  pub is_active : Bool

pub record Role : Type 0 where
  pub access_scope : Option Text
  pub permission : Option Permission

-- A user with the role as it was loaded, and its key.
pub record User : Type 0 where
  pub role : Option Role
  pub role_id : Option ℕ

-- `isGlobalScope(user.role?.access_scope)`
abbrev pub is_global : User → Bool
is_global u = elim u.role [
  | none ↦ false
  | some r ↦ elim r.access_scope [ none ↦ false | some scope ↦ text_eq scope (text "global") ]
]

abbrev pub active_access : Option Permission → Option StoredMatrix
active_access none = none
active_access (some p) = if p.is_active then some p.access else none

abbrev pub access_of_role : Option Role → Option StoredMatrix
access_of_role none = none
access_of_role (some r) = active_access r.permission

-- `find_active` is `findActiveByIdWithPermission`.
abbrev pub access_found : (ℕ → Option Role) → Option ℕ → Option StoredMatrix
access_found find_active none = none
access_found find_active (some id) = access_of_role (find_active id)

-- The matrix of the loaded role where its profile is active, or else of the role as it is found.
abbrev pub access_of_user : (ℕ → Option Role) → User → Option StoredMatrix
access_of_user find_active u = elim (access_of_role u.role) [
  | some access ↦ some access
  | none ↦ access_found find_active u.role_id
]

abbrev pub keys_of_access : Option StoredMatrix → List Text
keys_of_access none = []
keys_of_access (some access) = resolve_flat_permissions_from_matrix access

unfoldable pub resolve_user_permissions : (ℕ → Option Role) → User → List Text
resolve_user_permissions find_active u =
    add_key (text "AUDIT_VIEW")
      (if is_global u then all_permission_keys else keys_of_access (access_of_user find_active u))
