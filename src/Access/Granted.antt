-- ===== src/Access/Granted.antt =====
-- What a matrix grants, said of one key at a time, and the keys that the two loops of
-- common/auth/role-permissions.ts collect.
use ivis_backend.Base.{
  Bool, true, false, ◌&&◌, ◌||◌, Bool-cases, inl, inr, List, [], ◌∷◌, ◌++◌, any, Text, text_eq,
  text_eq→eq, if◌then◌else◌, ◌≡◌, refl, sym, ap, ◌∙◌, subst, arith,
}
use ivis_backend.Access.Keys.{CrudKeys, ModuleEntry}
use ivis_backend.Access.Matrix.{
  ModuleCrudFlags, ModuleAccess, RoleAccessMatrix, StoredMatrix, flat_modules, submodule_modules,
  normalize_role_access_matrix,
}
use ivis_backend.Access.Resolve.{
  has_key, add_key, add_keys, add_if, add_flags, access_of, entry_of, submodule_flags, resolve_flat,
  resolve_submodules, resolve_module, resolve_modules, resolve_normalized,
  resolve_flat_permissions_from_matrix,
}

-- A flag that is set grants the keys behind it.
abbrev pub grants : Text → ModuleCrudFlags → CrudKeys → Bool
grants k flags keys =
    (has_key k keys.view && flags.view)
    || ((has_key k keys.create && flags.create) || (has_key k keys.edit && flags.edit))

abbrev pub grants_below : Text → ModuleAccess → List (Text × CrudKeys) → Bool
grants_below k access subs = any (λ s. grants k (submodule_flags s.0 access) s.1) subs

-- A module with submodules grants its own keys and theirs, as long as it may be viewed.
abbrev pub grants_module : Text → ModuleAccess → ModuleEntry → Bool
grants_module k access entry =
    ((has_key k entry.keys.create && access.flags.create)
      || ((has_key k entry.keys.edit && access.flags.edit)
          || grants_below k access entry.submodules))
    && access.flags.view

unfoldable pub is_granted : Text → RoleAccessMatrix → Bool
is_granted k m =
    any (λ name. grants k (access_of name m).flags (entry_of name).keys) flat_modules
    || any (λ s. grants_module k (access_of s.0 m) (entry_of s.0)) submodule_modules

has_key-append_one :
    (k j : Text) (keys : List Text) → has_key k (keys ++ j ∷ []) ≡ has_key k keys || text_eq k j
has_key-append_one k j [] = ground arith
has_key-append_one k j (i ∷ keys) = ground (arith, has_key-append_one k j keys)

pub has_key-add_key :
    (k j : Text) (keys : List Text) → has_key k (add_key j keys) ≡ has_key k keys || text_eq k j
has_key-add_key k j keys = elim (Bool-cases (has_key j keys)) [
  | inr absent ↦ rw (absent, if◌then◌else◌) (has_key-append_one k j keys)
  | inl there ↦ elim (Bool-cases (text_eq k j)) [
    | inl same ↦
        let known : has_key k keys ≡ true =
          subst (λ i. has_key i keys ≡ true) (sym (text_eq→eq k j same)) there in
        rw (there, same, known)
    | inr other ↦ ground arith
  ]
]

has_key-add_keys :
    (k : Text) (ks keys : List Text) → has_key k (add_keys ks keys) ≡ has_key k keys || has_key k ks
has_key-add_keys k [] keys = ground arith
has_key-add_keys k (j ∷ ks) keys =
    ground (arith, has_key-add_keys k ks (add_key j keys), has_key-add_key k j keys)

has_key-add_if :
    (k : Text) (flag : Bool) (ks keys : List Text)
    → has_key k (add_if flag ks keys) ≡ has_key k keys || (has_key k ks && flag)
has_key-add_if k true ks keys = ground (arith, has_key-add_keys k ks keys)
has_key-add_if k false ks keys = ground arith

has_key-add_flags :
    (k : Text) (flags : ModuleCrudFlags) (keys : CrudKeys) (found : List Text)
    → has_key k (add_flags flags keys found) ≡ has_key k found || grants k flags keys
has_key-add_flags k flags keys found =
    let viewed = add_if flags.view keys.view found in
    let created = add_if flags.create keys.create viewed in
    ground (
      arith,
      has_key-add_if k flags.view keys.view found,
      has_key-add_if k flags.create keys.create viewed,
      has_key-add_if k flags.edit keys.edit created,
    )

or_assoc : (a b c : Bool) → (a || b) || c ≡ a || (b || c)
or_assoc true b c = refl
or_assoc false b c = refl

has_key-resolve_flat :
    (k : Text) (m : RoleAccessMatrix) (names : List Text) (found : List Text)
    → has_key k (resolve_flat m names found)
      ≡ has_key k found
        || any (λ name. grants k (access_of name m).flags (entry_of name).keys) names
has_key-resolve_flat k m [] found = ground arith
has_key-resolve_flat k m (name ∷ names) found =
    let flags = (access_of name m).flags in
    let keys = (entry_of name).keys in
    let later = any (λ n. grants k (access_of n m).flags (entry_of n).keys) names in
    has_key-resolve_flat k m names (add_flags flags keys found)
    ∙ ap (λ b. b || later) (has_key-add_flags k flags keys found)
    ∙ or_assoc (has_key k found) (grants k flags keys) later

has_key-resolve_submodules :
    (k : Text) (access : ModuleAccess) (subs : List (Text × CrudKeys)) (found : List Text)
    → has_key k (resolve_submodules access subs found)
      ≡ has_key k found || grants_below k access subs
has_key-resolve_submodules k access [] found = ground arith
has_key-resolve_submodules k access ((sub, keys) ∷ subs) found = ground (
  arith,
  has_key-add_flags k (submodule_flags sub access) keys found,
  has_key-resolve_submodules k access subs (add_flags (submodule_flags sub access) keys found),
)

has_key-resolve_module :
    (k : Text) (access : ModuleAccess) (entry : ModuleEntry) (found : List Text)
    → has_key k (resolve_module access entry found)
      ≡ has_key k found || grants_module k access entry
has_key-resolve_module k access entry found =
    let created = add_if access.flags.create entry.keys.create found in
    let edited = add_if access.flags.edit entry.keys.edit created in
    ground (
      arith,
      has_key-add_if k access.flags.create entry.keys.create found,
      has_key-add_if k access.flags.edit entry.keys.edit created,
      has_key-resolve_submodules k access entry.submodules edited,
    )

has_key-resolve_modules :
    (k : Text) (m : RoleAccessMatrix) (names : List (Text × List Text)) (found : List Text)
    → has_key k (resolve_modules m names found)
      ≡ has_key k found || any (λ s. grants_module k (access_of s.0 m) (entry_of s.0)) names
has_key-resolve_modules k m [] found = ground arith
has_key-resolve_modules k m ((name, subs) ∷ names) found =
    let access = access_of name m in
    let entry = entry_of name in
    let later = any (λ s. grants_module k (access_of s.0 m) (entry_of s.0)) names in
    has_key-resolve_modules k m names (resolve_module access entry found)
    ∙ ap (λ b. b || later) (has_key-resolve_module k access entry found)
    ∙ or_assoc (has_key k found) (grants_module k access entry) later

-- The loops collect exactly the keys that the matrix grants.
pub resolve_normalized-granted :
    (k : Text) (m : RoleAccessMatrix) → has_key k (resolve_normalized m) ≡ is_granted k m
unfolding resolve_normalized is_granted
resolve_normalized-granted k m =
    has_key-resolve_modules k m submodule_modules (resolve_flat m flat_modules [])
    ∙ ap (λ b. b || any (λ s. grants_module k (access_of s.0 m) (entry_of s.0)) submodule_modules)
        (has_key-resolve_flat k m flat_modules [])

-- For every key and every stored matrix, complete or not, the key is among the permissions that the
-- matrix is resolved to exactly if the normal form of the matrix grants it.
pub resolve_permissions-granted :
    (k : Text) (stored : StoredMatrix)
    → has_key k (resolve_flat_permissions_from_matrix stored)
      ≡ is_granted k (normalize_role_access_matrix stored)
unfolding resolve_flat_permissions_from_matrix
resolve_permissions-granted k stored =
    resolve_normalized-granted k (normalize_role_access_matrix stored)
