-- ===== src/Exchange/Steps.antt =====
-- What the watcher of jobs/services/outfile-watcher.service.ts does with one file, as a step relation.
use ivis_backend.Base.{
  Bool, true, false, Option, none, some, List, [], ◌∷◌, Text, if◌then◌else◌, ◌≡◌, refl,
}
use ivis_backend.Store.Entities.{Job}
use ivis_backend.Exchange.Ini.{Ini, parse_ini}
use ivis_backend.Exchange.Watcher.{
  Watch, key_of, licence_no, filled_trim, is_misnamed, candidates_of, attach, save_job, add_key,
  attribute, process, process_content, skips, scan_file,
}

-- What a pass may do: remember a file, and attach a result to the one candidate of a plate.
pub data Step : Watch → Watch → Type 0 where
  stays : (w : Watch) → Step w w
  remembers : (w : Watch) (key : Text) → Step w (add_key key w)
  attaches :
      (w : Watch) (key file path : Text) (parsed : Ini) (plate : Text) (job : Job)
      → candidates_of plate w.db ≡ job ∷ []
      → Step w (record {
        processed = key ∷ w.processed;
        db = save_job job.id (attach file path parsed) w.db;
      })

module _ (read : Text → Option Text) (join : Text → Text → Text) where
  attribute-Step :
      (key file path : Text) (parsed : Ini) (plate : Text) (w : Watch)
      → (jobs : List Job) → candidates_of plate w.db ≡ jobs
      → Step w (attribute key file path parsed jobs w)
  attribute-Step key file path parsed plate w [] c = Step.stays w
  attribute-Step key file path parsed plate w (j ∷ []) c =
      Step.attaches w key file path parsed plate j c
  attribute-Step key file path parsed plate w (j ∷ k ∷ jobs) c = Step.remembers w key

  if-Step : {w x y : Watch} → (b : Bool) → Step w x → Step w y → Step w (if b then x else y)
  if-Step true here there = here
  if-Step false here there = there

  process-Step :
      (key file path : Text) (parsed : Ini) (plate : Option Text) (w : Watch)
      → Step w (process key file path parsed plate w)
  process-Step key file path parsed none w = Step.remembers w key
  process-Step key file path parsed (some plate) w =
      if-Step (is_misnamed file plate) (Step.remembers w key)
        (attribute-Step key file path parsed plate w (candidates_of plate w.db) refl)

  process_content-Step :
      (key file path : Text) (content : Option Text) (w : Watch)
      → Step w (process_content key file path content w)
  process_content-Step key file path none w = Step.stays w
  process_content-Step key file path (some content) w =
      process-Step key file path (parse_ini content) (filled_trim (licence_no (parse_ini content)))
        w

  pub scan_file-Step : (dir file : Text) (w : Watch) → Step w (scan_file read join dir file w)
  unfolding scan_file
  scan_file-Step dir file w =
      if-Step (skips dir file w) (Step.stays w)
        (process_content-Step (key_of dir file) file (join dir file) (read (join dir file)) w)
