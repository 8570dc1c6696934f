-- ===== src/Exchange/Watcher.antt =====
-- jobs/services/outfile-watcher.service.ts: one pass over a folder of result files. The folder is the
-- list of its file names, `read` is `fs.readFile` (`none` where it throws) and `join` is `path.join`.
-- Log lines are left out; the order of the candidates is seen in a log line only.
use ivis_backend.Base.{
  ℕ, ◌==◌, Bool, false, ◌&&◌, ◌||◌, not, Option, none, some, List, [], ◌∷◌, ◌++◌, keep, any,
  update_first, Text, text, text_eq, trim, to_lower, entry_get, or_else, if◌then◌else◌,
}
use ivis_backend.Store.Entities.{Job, VehicleRecord, Db}
use ivis_backend.Store.Dao.{vehicle_record_of}
use ivis_backend.Exchange.Ini.{Ini, Verdict, ends_with, parse_ini, derive_overall_result}
use ivis_backend.Exchange.Names.{normalize_plate_for_file_name, parse_out_file_name}

-- The field `processed` and the database.
pub record Watch : Type 0 where
  pub processed : List Text
  pub db : Db

-- `/\.(res\.txt|txt|res)$/i.test(file)`
unfoldable pub is_result_file : Text → Bool
is_result_file file =
    let name = to_lower file in
    ends_with name (text ".res.txt")
    || (ends_with name (text ".txt") || ends_with name (text ".res"))

-- `${dir}:${file}`
abbrev pub key_of : Text → Text → Text
key_of dir file = dir ++ text ":" ++ file

-- `parsed['GenCarInfo']?.['LicenceNo']`
abbrev pub licence_no : Ini → Option Text
licence_no parsed = elim (entry_get (text "GenCarInfo") parsed) [
  | none ↦ none
  | some section ↦ entry_get (text "LicenceNo") section
]

-- `….trim()`, and `none` where it is empty or missing.
abbrev pub filled : Option Text → Option Text
filled none = none
filled (some []) = none
filled (some (c ∷ s)) = some (c ∷ s)

abbrev pub filled_trim : Option Text → Option Text
filled_trim none = none
filled_trim (some s) = filled (some (trim s))

-- The name of the file is of another plate than its content.
unfoldable pub is_misnamed : Text → Text → Bool
is_misnamed file plate = elim (parse_out_file_name file) [
  | none ↦ false
  | some (named, date) ↦ not (text_eq named (normalize_plate_for_file_name plate))
]

abbrev pub has_plate : Text → Option VehicleRecord → Bool
has_plate plate none = false
has_plate plate (some v) = text_eq v.plate_number plate

-- The query for the jobs in progress of a plate.
unfoldable pub is_candidate : Text → Db → Job → Bool
is_candidate plate db j =
    not j.is_deleted
    && (text_eq j.status (text "In Progress")
        && has_plate plate (vehicle_record_of j.vehicle_record_id db))

unfoldable pub candidates_of : Text → Db → List Job
unfolding is_candidate
candidates_of plate db = keep (is_candidate plate db) db.jobs

abbrev pub verdict_text : Option Verdict → Option Text
verdict_text none = none
verdict_text (some Verdict.passed) = some (text "Passed")
verdict_text (some Verdict.failed) = some (text "Failed")

-- The four assignments to the job, for the verdict that was derived.
abbrev pub write_result : Text → Text → Ini → Option Verdict → Job → Job
write_result file path parsed verdict j = record j {
  test_results = some parsed;
  outfile_name = some file;
  outfile_path = some path;
  overall_result = or_else (verdict_text verdict) j.overall_result;
}

abbrev pub attach : Text → Text → Ini → Job → Job
attach file path parsed = write_result file path parsed (derive_overall_result parsed)

-- `jobDao.save(job)` writes the columns that changed to the row with the id of the job.
abbrev pub save_job : ℕ → (Job → Job) → Db → Db
save_job id change db = record db { jobs = update_first (λ j. j.id == id) change db.jobs }

abbrev pub add_key : Text → Watch → Watch
add_key key w = record w { processed = key ∷ w.processed }

abbrev pub attribute : Text → Text → Text → Ini → List Job → Watch → Watch
attribute key file path parsed [] w = w
attribute key file path parsed (job ∷ []) w = record {
  processed = key ∷ w.processed;
  db = save_job job.id (attach file path parsed) w.db;
}
attribute key file path parsed (job ∷ next ∷ others) w = add_key key w

abbrev pub process : Text → Text → Text → Ini → Option Text → Watch → Watch
process key file path parsed none w = add_key key w
process key file path parsed (some plate) w =
    if is_misnamed file plate
    then add_key key w
    else attribute key file path parsed (candidates_of plate w.db) w

abbrev pub process_content : Text → Text → Text → Option Text → Watch → Watch
process_content key file path none w = w
process_content key file path (some content) w =
    process key file path (parse_ini content) (filled_trim (licence_no (parse_ini content))) w

-- The two tests before a file is read.
abbrev pub skips : Text → Text → Watch → Bool
skips dir file w = not (is_result_file file) || any (text_eq (key_of dir file)) w.processed

module _ (read : Text → Option Text) (join : Text → Text → Text) where
  -- The body of the loop over the files.
  unfoldable pub scan_file : Text → Text → Watch → Watch
  unfolding is_result_file is_misnamed candidates_of
  scan_file dir file w =
      if skips dir file w
      then w
      else process_content (key_of dir file) file (join dir file) (read (join dir file)) w

  unfoldable pub scan_folder : Text → List Text → Watch → Watch
  unfolding scan_file
  scan_folder dir [] w = w
  scan_folder dir (file ∷ files) w = scan_folder dir files (scan_file dir file w)

  module _ (list_files : Text → Option (List Text)) where
    -- `fs.readdir` may throw.
    abbrev pub scan_listed : Text → Watch → Watch
    scan_listed dir w = elim (list_files dir) [ none ↦ w | some files ↦ scan_folder dir files w ]

    abbrev pub scan_all : List (Option Text) → Watch → Watch
    scan_all [] w = w
    scan_all (path ∷ paths) w =
        scan_all paths (elim (filled_trim path) [ none ↦ w | some dir ↦ scan_listed dir w ])

    -- `tick`, on the OUT folders of the Admin PCs that are not deleted.
    unfoldable pub tick : Bool → List (Option Text) → Watch → Watch
    unfolding scan_folder
    tick disabled paths w = if disabled then w else scan_all paths w
