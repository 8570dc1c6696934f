-- ===== src/Exchange/InFile.antt =====
-- jobs/services/infile-generator.service.ts: the IN file of a job, its name and its path. `join` is
-- `path.join`; a write that fails is logged and changes nothing of the result.
use ivis_backend.Base.{ℕ, Option, none, some, [], ◌∷◌, ◌++◌, map, Text, text, decimal, or_else}
use ivis_backend.Exchange.Ini.{Section}
use ivis_backend.Exchange.Lines.{join_lines, entry_line, header_line}
use ivis_backend.Exchange.Names.{build_in_file_name}
use ivis_backend.Exchange.Watcher.{filled_trim}

-- The columns of the relations of a job that the file is made of.
pub record CustomerInfo : Type 0 where
  pub owner_name : Option Text
  pub owner_phone_number : Option Text

pub record VehicleInfo : Type 0 where
  pub plate_number : Option Text
  pub chassis_no : Option Text
  pub vehicle_model : Option Text
  pub vehicle_color : Option Text
  pub plate_color : Option Text
  pub vehicle_make : Option Text
  pub vehicle_type : Option Text

pub record JobInfo : Type 0 where
  pub job_id : ℕ
  pub customer : Option CustomerInfo
  pub vehicle : Option VehicleInfo
  pub in_file_path : Option Text

-- `row?.column ?? ''`
abbrev pub field : {A : Type 0} → (A → Option Text) → Option A → Text
field column none = []
field column (some row) = elim (column row) [ none ↦ [] | some s ↦ s ]

abbrev pub plate_or_number : ℕ → Option Text → Text
plate_or_number job_id none = text "JOB-" ++ decimal job_id
plate_or_number job_id (some plate) = plate

abbrev pub plate_of : JobInfo → Text
plate_of job = elim job.vehicle [
  | none ↦ plate_or_number job.job_id none
  | some v ↦ plate_or_number job.job_id v.plate_number
]

-- The lines behind the first, up to the number of axles.
abbrev pub car_lines : JobInfo → Section
car_lines job =
    (text "Address", text "Mr.")
    ∷ (text "Name", field (λ c. c.owner_name) job.customer)
    ∷ (text "ZipCode", [])
    ∷ (text "City", [])
    ∷ (text "Street", [])
    ∷ (text "HouseNo", [])
    ∷ (text "ChassisNo", field (λ v. v.chassis_no) job.vehicle)
    ∷ (text "ModelCode", field (λ v. v.vehicle_model) job.vehicle)
    ∷ (text "Color", field (λ v. or_else v.vehicle_color v.plate_color) job.vehicle)
    ∷ (text "ManufacYear", [])
    ∷ (text "Year", [])
    ∷ (text "Maker", field (λ v. v.vehicle_make) job.vehicle)
    ∷ (text "InspectorName", [])
    ∷ (text "VehicleCategory", [])
    ∷ (text "VehicleType", field (λ v. v.vehicle_type) job.vehicle)
    ∷ (text "ExhaustType", [])
    ∷ (text "InspectionNo", decimal job.job_id)
    ∷ (text "Phone", [])
    ∷ (text "Mobile", field (λ c. c.owner_phone_number) job.customer)
    ∷ (text "NumberOfAxles", text "2")
    ∷ []

-- The loop from 1 to 8 and the lines after it, the requested tests included.
abbrev pub test_lines : Section
test_lines =
    (text "ParkingBrakePos_1", text "false")
    ∷ (text "ParkingBrakePos_2", text "true")
    ∷ (text "ParkingBrakePos_3", text "false")
    ∷ (text "ParkingBrakePos_4", text "false")
    ∷ (text "ParkingBrakePos_5", text "false")
    ∷ (text "ParkingBrakePos_6", text "false")
    ∷ (text "ParkingBrakePos_7", text "false")
    ∷ (text "ParkingBrakePos_8", text "false")
    ∷ (text "4WD", text "false")
    ∷ (text "Remark1", [])
    ∷ (text "Remark2", [])
    ∷ (text "Remark3", [])
    ∷ (text "SSP_Status", text "ToCheck")
    ∷ (text "FWT_Status", text "ToCheck")
    ∷ (text "BDE_Status", text "ToCheck")
    ∷ (text "AGT_Status", text "ToCheck")
    ∷ (text "HLT_Status", text "ToCheck")
    ∷ (text "NOC_Status", text "ToCheck")
    ∷ (text "VEH_Status", text "ToCheck")
    ∷ []

abbrev pub rest_of : JobInfo → Section
rest_of job = car_lines job ++ test_lines

unfoldable pub lines_of : JobInfo → Section
lines_of job = (text "LicenceNo", plate_of job) ∷ rest_of job

unfoldable pub content_of : JobInfo → Text
unfolding lines_of
content_of job =
    header_line (text "GenCarInfo")
    ++ text "\r\n"
    ++ join_lines (map entry_line (lines_of job))
    ++ text "\r\n"

-- `a || b || c`, each trimmed but the last.
abbrev pub folder : Option Text → Option Text → Text → Text
folder own configured fallback = elim (or_else (filled_trim own) (filled_trim configured)) [
  | none ↦ fallback
  | some dir ↦ dir
]

pub record Generated : Type 0 where
  pub name : Text
  pub path : Text
  pub content : Text

unfoldable pub generate_for_job {ℓ} :
    {Instant : Type ℓ} (format : Instant → Text) (join : Text → Text → Text)
    (in_file_dir : Option Text) (upload_root : Text)
    → Instant
    → JobInfo
    → Generated
unfolding content_of
generate_for_job format join in_file_dir upload_root now job =
    let dir = folder job.in_file_path in_file_dir (join upload_root (text "in-files")) in
    let name = build_in_file_name format (plate_of job) now in
    record { name = name; path = join dir name; content = content_of job }
