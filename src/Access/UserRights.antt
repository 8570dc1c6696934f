-- ===== src/Access/UserRights.antt =====
-- Which users the guard of guards/permissions.guard.ts lets through, said of what is stored.
use ivis_backend.Base.{Bool, false, Option, none, some, List, [], ◌∷◌, Text, text, entry_get}
use ivis_backend.Access.Matrix.{ModuleCrudFlags, StoredFlags, StoredModule, StoredMatrix, no_flags}

-- What a stored matrix says: nothing that is missing is allowed.
abbrev pub is_yes : Option Bool → Bool
is_yes none = false
is_yes (some b) = b

abbrev pub flag_of_module : (StoredFlags → Option Bool) → Text → StoredMatrix → Bool
flag_of_module flag name m = elim (entry_get name m) [
  | none ↦ false
  | some s ↦ is_yes (flag s.flags)
]

abbrev pub submodule_of : Text → StoredModule → Option StoredFlags
submodule_of sub s = elim s.submodules [ none ↦ none | some subs ↦ entry_get sub subs ]

abbrev pub flag_of_submodule : (StoredFlags → Option Bool) → Text → Text → StoredMatrix → Bool
flag_of_submodule flag name sub m = elim (entry_get name m) [
  | none ↦ false
  | some s ↦ elim (submodule_of sub s) [ none ↦ false | some f ↦ is_yes (flag f) ]
]

abbrev no_submodules : List (Text × ModuleCrudFlags)
no_submodules =
    (text "payments", no_flags)
    ∷ (text "vehicle_records", no_flags)
    ∷ (text "customers", no_flags)
    ∷ (text "file_processing", no_flags)
    ∷ (text "rop_management", no_flags)
    ∷ []

-- What a matrix that applies to the user says, none applying to nobody.
abbrev pub allowed : (StoredMatrix → Bool) → Option StoredMatrix → Bool
allowed says none = false
allowed says (some m) = says m
