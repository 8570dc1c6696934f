-- ===== src/Examples/Roles.antt =====
-- Rights of roles on concrete data.
use ivis_backend.Base.{ℕ, true, Option, none, some, [], ◌∷◌, text}
use ivis_backend.Access.Matrix.{StoredFlags, StoredMatrix}
use ivis_backend.Access.Users.{Role, User}

abbrev may_edit : StoredFlags
may_edit = record { create = none; edit = some true; view = some true }

abbrev access : StoredMatrix
access =
    (
      text "transactions",
      record { flags = may_edit; submodules = some ((text "payments", may_edit) ∷ []) },
    )
    ∷ []

-- A role of one centre.
abbrev cashier : Role
cashier = record {
  access_scope = some (text "centre");
  permission = some (record { access = access; is_active = true });
}

abbrev user : User
user = record { role = some cashier; role_id = some 4 }

abbrev nobody : ℕ → Option Role
nobody id = none
