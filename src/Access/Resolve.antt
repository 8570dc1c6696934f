-- ===== src/Access/Resolve.antt =====
-- common/auth/role-permissions.ts: from a role's access matrix to the flat permission keys that the
-- guards check, and from keys to a matrix.
use ivis_backend.Base.{
  Bool, ◌||◌, none, some, List, [], ◌∷◌, ◌++◌, map, any, Text, text_eq, entry_get, if◌then◌else◌,
}
use ivis_backend.Access.Keys.{CrudKeys, ModuleEntry, keys_of, module_permission_map}
use ivis_backend.Access.Matrix.{
  ModuleCrudFlags, ModuleAccess, RoleAccessMatrix, StoredMatrix, flat_modules, submodule_modules,
  no_flags, normalize_role_access_matrix,
}

-- `keys.has(k)`
abbrev pub has_key : Text → List Text → Bool
has_key k keys = any (text_eq k) keys

-- `resolved.add(k)` on a set, in the order of insertion.
abbrev pub add_key : Text → List Text → List Text
add_key k resolved = if has_key k resolved then resolved else resolved ++ k ∷ []

abbrev pub add_keys : List Text → List Text → List Text
add_keys [] resolved = resolved
add_keys (k ∷ keys) resolved = add_keys keys (add_key k resolved)

-- `if (flag) keys.forEach((k) => resolved.add(k))`
abbrev pub add_if : Bool → List Text → List Text → List Text
add_if flag keys resolved = if flag then add_keys keys resolved else resolved

abbrev pub add_flags : ModuleCrudFlags → CrudKeys → List Text → List Text
add_flags flags keys resolved =
    add_if flags.edit keys.edit
      (add_if flags.create keys.create (add_if flags.view keys.view resolved))

-- `normalized[mod]` and `MODULE_PERMISSION_MAP[mod]`, which are there for every module.
abbrev pub access_of : Text → RoleAccessMatrix → ModuleAccess
access_of name matrix = elim (entry_get name matrix) [
  | none ↦ record { flags = no_flags; submodules = [] }
  | some access ↦ access
]

abbrev pub entry_of : Text → ModuleEntry
entry_of name = elim (entry_get name module_permission_map) [
  | none ↦ record { keys = keys_of [] [] []; submodules = [] }
  | some entry ↦ entry
]

abbrev pub submodule_flags : Text → ModuleAccess → ModuleCrudFlags
submodule_flags sub access = elim (entry_get sub access.submodules) [ none ↦ no_flags | some f ↦ f ]

abbrev pub resolve_flat : RoleAccessMatrix → List Text → List Text → List Text
resolve_flat m [] resolved = resolved
resolve_flat m (name ∷ names) resolved =
    resolve_flat m names (add_flags (access_of name m).flags (entry_of name).keys resolved)

abbrev pub resolve_submodules : ModuleAccess → List (Text × CrudKeys) → List Text → List Text
resolve_submodules access [] resolved = resolved
resolve_submodules access ((sub, keys) ∷ subs) resolved =
    resolve_submodules access subs (add_flags (submodule_flags sub access) keys resolved)

-- A module that may not be viewed suppresses everything below it.
abbrev pub resolve_module : ModuleAccess → ModuleEntry → List Text → List Text
resolve_module access entry resolved =
    if access.flags.view
    then resolve_submodules access entry.submodules (
        add_if access.flags.edit entry.keys.edit
          (add_if access.flags.create entry.keys.create resolved))
    else resolved

abbrev pub resolve_modules : RoleAccessMatrix → List (Text × List Text) → List Text → List Text
resolve_modules m [] resolved = resolved
resolve_modules m ((name, subs) ∷ names) resolved =
    resolve_modules m names (resolve_module (access_of name m) (entry_of name) resolved)

-- The two loops, on a matrix in normal form.
unfoldable pub resolve_normalized : RoleAccessMatrix → List Text
resolve_normalized m = resolve_modules m submodule_modules (resolve_flat m flat_modules [])

unfoldable pub resolve_flat_permissions_from_matrix : StoredMatrix → List Text
unfolding resolve_normalized
resolve_flat_permissions_from_matrix matrix =
    resolve_normalized (normalize_role_access_matrix matrix)

-- `hasAnyKey`
abbrev pub has_any_key : List Text → List Text → Bool
has_any_key flat keys = any (λ k. has_key k flat) keys

abbrev pub flags_from : List Text → CrudKeys → ModuleCrudFlags
flags_from flat keys = record {
  create = has_any_key flat keys.create;
  edit = has_any_key flat keys.edit;
  view = has_any_key flat keys.view;
}

abbrev pub flat_from : List Text → Text → Text × ModuleAccess
flat_from flat name =
    (name, record { flags = flags_from flat (entry_of name).keys; submodules = [] })

abbrev pub submodule_from : List Text → Text × CrudKeys → Text × ModuleCrudFlags
submodule_from flat (sub, keys) = (sub, flags_from flat keys)

-- The flags of a module are those of its submodules together, with its own keys.
abbrev pub module_from : List Text → Text × List Text → Text × ModuleAccess
module_from flat (name, _) =
    let entry = entry_of name in
    let subs = map (submodule_from flat) entry.submodules in
    (
      name,
      record {
        flags = record {
          create = has_any_key flat entry.keys.create || any (λ s. s.1.create) subs;
          edit = has_any_key flat entry.keys.edit || any (λ s. s.1.edit) subs;
          view = any (λ s. s.1.view) subs;
        };
        submodules = subs;
      },
    )

unfoldable pub matrix_from_flat_permissions : List Text → RoleAccessMatrix
matrix_from_flat_permissions flat =
    map (flat_from flat) flat_modules ++ map (module_from flat) submodule_modules
