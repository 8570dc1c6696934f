-- ===== src/Access/Keys.antt =====
-- MODULE_PERMISSION_MAP of common/auth/role-permissions.ts: the permission keys behind each flag of a
-- role's access matrix. A key is its text.
use ivis_backend.Base.{List, [], ◌∷◌, Text, text}

pub record CrudKeys : Type 0 where
  pub view : List Text
  pub create : List Text
  pub edit : List Text

pub record ModuleEntry : Type 0 where
  pub keys : CrudKeys
  pub submodules : List (Text × CrudKeys)

abbrev pub keys_of : List Text → List Text → List Text → CrudKeys
keys_of view create edit = record { view = view; create = create; edit = edit }

abbrev pub appointments_entry : ModuleEntry
appointments_entry = record {
  keys =
      keys_of [] (text "APPOINTMENTS_CREATE" ∷ [])
        (text "APPOINTMENTS_UPSERT" ∷ text "APPOINTMENTS_DELETE" ∷ []);
  submodules =
      (text "list_view", keys_of (text "APPOINTMENTS_VIEW" ∷ []) [] [])
      ∷ (text "calendar_view", keys_of (text "APPOINTMENTS_VIEW" ∷ []) [] [])
      ∷ [];
}

abbrev pub master_management_entry : ModuleEntry
master_management_entry = record {
  keys = keys_of [] [] [];
  submodules =
      (
        text "vehicle",
        keys_of (text "MASTERS_VIEW" ∷ []) (text "MASTERS_CREATE" ∷ [])
            (text "MASTERS_UPSERT" ∷ text "MASTERS_DELETE" ∷ []),
      )
      ∷ (
        text "center",
        keys_of (text "MASTERS_VIEW" ∷ []) (text "MASTERS_CREATE" ∷ [])
            (text "MASTERS_UPSERT" ∷ text "MASTERS_DELETE" ∷ []),
      )
      ∷ (
        text "line",
        keys_of (text "MASTERS_VIEW" ∷ []) (text "MASTERS_CREATE" ∷ [])
            (text "MASTERS_UPSERT" ∷ text "MASTERS_DELETE" ∷ []),
      )
      ∷ (
        text "admin_pc",
        keys_of (text "MASTERS_VIEW" ∷ []) (text "MASTERS_CREATE" ∷ [])
            (text "MASTERS_UPSERT" ∷ text "MASTERS_DELETE" ∷ []),
      )
      ∷ (
        text "camera_anpr",
        keys_of (text "ANPR_VIEW" ∷ []) (text "ANPR_CREATE" ∷ [])
            (text "ANPR_UPSERT" ∷ text "ANPR_DELETE" ∷ []),
      )
      ∷ (
        text "charges",
        keys_of (text "MASTERS_VIEW" ∷ []) (text "MASTERS_CREATE" ∷ [])
            (text "MASTERS_UPSERT" ∷ text "MASTERS_DELETE" ∷ []),
      )
      ∷ [];
}

abbrev pub transactions_entry : ModuleEntry
transactions_entry = record {
  keys = keys_of [] [] [];
  submodules =
      (
        text "payments",
        keys_of (text "PAYMENTS_VIEW" ∷ []) (text "PAYMENTS_CREATE" ∷ [])
            (text "PAYMENTS_UPSERT" ∷ text "PAYMENTS_DELETE" ∷ []),
      )
      ∷ (
        text "vehicle_records",
        keys_of (text "VEHICLE_RECORDS_VIEW" ∷ []) (text "VEHICLE_RECORDS_CREATE" ∷ [])
            (text "VEHICLE_RECORDS_UPSERT" ∷ text "VEHICLE_RECORDS_DELETE" ∷ []),
      )
      ∷ (
        text "customers",
        keys_of (text "CUSTOMERS_VIEW" ∷ []) (text "CUSTOMERS_CREATE" ∷ [])
            (text "CUSTOMERS_UPSERT" ∷ text "CUSTOMERS_DELETE" ∷ []),
      )
      ∷ (text "file_processing", keys_of (text "FILE_PROCESSING_VIEW" ∷ []) [] [])
      ∷ (
        text "rop_management",
        keys_of (text "ROP_VIEW" ∷ []) (text "ROP_CREATE" ∷ [])
            (text "ROP_UPSERT" ∷ text "ROP_DELETE" ∷ []),
      )
      ∷ [];
}

abbrev pub user_management_entry : ModuleEntry
user_management_entry = record {
  keys = keys_of [] [] [];
  submodules =
      (
        text "users",
        keys_of (text "USER_VIEW" ∷ []) (text "USER_CREATE" ∷ [])
            (text "USER_EDIT" ∷ text "USER_DELETE" ∷ []),
      )
      ∷ (
        text "roles",
        keys_of (text "ROLES_VIEW" ∷ []) (text "ROLES_CREATE" ∷ [])
            (text "ROLES_UPSERT" ∷ text "ROLES_DELETE" ∷ []),
      )
      ∷ (
        text "permissions",
        keys_of (text "PERMISSIONS_VIEW" ∷ []) (text "PERMISSIONS_CREATE" ∷ [])
            (text "PERMISSIONS_UPSERT" ∷ text "PERMISSIONS_DELETE" ∷ []),
      )
      ∷ (text "audit_logs", keys_of (text "AUDIT_VIEW" ∷ []) [] [])
      ∷ [];
}

abbrev pub module_permission_map : List (Text × ModuleEntry)
module_permission_map =
    (
      text "dashboard",
      record { keys = keys_of (text "DASHBOARD_VIEW" ∷ []) [] []; submodules = [] },
    )
    ∷ (
      text "job_management",
      record {
        keys =
            keys_of (text "JOBS_VIEW" ∷ []) (text "JOBS_CREATE" ∷ [])
              (text "JOBS_UPSERT" ∷ text "JOBS_DELETE" ∷ []);
        submodules = [];
      },
    )
    ∷ (
      text "reports_analytics",
      record { keys = keys_of (text "REPORTS_VIEW" ∷ []) [] []; submodules = [] },
    )
    ∷ (
      text "configuration",
      record {
        keys =
            keys_of (text "CONFIGURATION_VIEW" ∷ []) (text "CONFIGURATION_UPSERT" ∷ [])
              (text "CONFIGURATION_UPSERT" ∷ []);
        submodules = [];
      },
    )
    ∷ (text "appointments", appointments_entry)
    ∷ (text "master_management", master_management_entry)
    ∷ (text "transactions", transactions_entry)
    ∷ (text "user_management", user_management_entry)
    ∷ []
