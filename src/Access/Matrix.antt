-- ===== src/Access/Matrix.antt =====
-- common/types/role-access.types.ts, and the normal form of a stored matrix in
-- common/auth/role-permissions.ts. Of a stored flag that is no Boolean, only its truth is read.
use ivis_backend.Base.{
  Bool, false, Option, none, some, List, [], ◌∷◌, ◌++◌, map, Text, text, entry_get,
}

pub record ModuleCrudFlags : Type 0 where
  pub create : Bool
  pub edit : Bool
  pub view : Bool

pub record ModuleAccess : Type 0 where
  pub flags : ModuleCrudFlags
  pub submodules : List (Text × ModuleCrudFlags)

abbrev pub RoleAccessMatrix : Type 0
RoleAccessMatrix = List (Text × ModuleAccess)

-- What is stored may lack modules, submodules and flags.
pub record StoredFlags : Type 0 where
  pub create : Option Bool
  pub edit : Option Bool
  pub view : Option Bool

pub record StoredModule : Type 0 where
  pub flags : StoredFlags
  pub submodules : Option (List (Text × StoredFlags))

abbrev pub StoredMatrix : Type 0
StoredMatrix = List (Text × StoredModule)

abbrev pub flat_modules : List Text
flat_modules =
    text "dashboard" ∷ text "job_management" ∷ text "reports_analytics" ∷ text "configuration" ∷ []

-- SUBMODULE_MODULES with the submodules of each.
abbrev pub submodule_modules : List (Text × List Text)
submodule_modules =
    (text "appointments", text "list_view" ∷ text "calendar_view" ∷ [])
    ∷ (
      text "master_management",
      text "vehicle"
          ∷ text "center"
          ∷ text "line"
          ∷ text "admin_pc"
          ∷ text "camera_anpr"
          ∷ text "charges"
          ∷ [],
    )
    ∷ (
      text "transactions",
      text "payments"
          ∷ text "vehicle_records"
          ∷ text "customers"
          ∷ text "file_processing"
          ∷ text "rop_management"
          ∷ [],
    )
    ∷ (
      text "user_management",
      text "users" ∷ text "roles" ∷ text "permissions" ∷ text "audit_logs" ∷ [],
    )
    ∷ []

abbrev pub no_flags : ModuleCrudFlags
no_flags = record { create = false; edit = false; view = false }

-- `createEmptyRoleAccessMatrix`
abbrev pub empty_flat : Text → Text × ModuleAccess
empty_flat name = (name, record { flags = no_flags; submodules = [] })

abbrev pub empty_submodule : Text → Text × ModuleCrudFlags
empty_submodule sub = (sub, no_flags)

abbrev pub empty_module : Text × List Text → Text × ModuleAccess
empty_module (name, subs) =
    (name, record { flags = no_flags; submodules = map empty_submodule subs })

abbrev pub create_empty_role_access_matrix : RoleAccessMatrix
create_empty_role_access_matrix = map empty_flat flat_modules ++ map empty_module submodule_modules

-- `Boolean(flag)`
abbrev pub truth : Option Bool → Bool
truth none = false
truth (some b) = b

abbrev pub flags_truth : StoredFlags → ModuleCrudFlags
flags_truth f = record { create = truth f.create; edit = truth f.edit; view = truth f.view }

-- The flags of a submodule, none where it is not stored.
abbrev pub stored_submodule :
    List (Text × StoredFlags) → Text × ModuleCrudFlags → Text × ModuleCrudFlags
stored_submodule incoming (sub, empty) =
    (sub, elim (entry_get sub incoming) [ none ↦ empty | some f ↦ flags_truth f ])

abbrev pub stored_submodules :
    Option (List (Text × StoredFlags))
    → List (Text × ModuleCrudFlags)
    → List (Text × ModuleCrudFlags)
stored_submodules none base = base
stored_submodules (some incoming) base = map (stored_submodule incoming) base

-- One module of the base, overwritten by what is stored of it.
abbrev pub stored_module : StoredMatrix → Text × ModuleAccess → Text × ModuleAccess
stored_module partial (name, base) = (
  name,
  elim (entry_get name partial) [
    | none ↦ base
    | some incoming ↦ record {
      flags = flags_truth incoming.flags;
      submodules = stored_submodules incoming.submodules base.submodules;
    }
  ],
)

unfoldable pub normalize_role_access_matrix : StoredMatrix → RoleAccessMatrix
normalize_role_access_matrix partial = map (stored_module partial) create_empty_role_access_matrix
