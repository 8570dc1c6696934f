-- ===== src/Exchange/Rescan.antt =====
-- A pass of the watcher over files that it has seen.
use ivis_backend.Base.{
  ℕ, ◌==◌, Bool, true, false, ◌||◌, not, Option, none, some, List, [], ◌∷◌, keep, any, update_first,
  Text, text_eq, text_eq_refl, if◌then◌else◌, ◌≡◌, refl, ap, ◌∙◌, arith,
}
use ivis_backend.Store.Entities.{Job, Db}
use ivis_backend.Exchange.Ini.{Ini, parse_ini}
use ivis_backend.Exchange.Steps.{Step, scan_file-Step}
use ivis_backend.Exchange.Watcher.{
  Watch, is_result_file, key_of, licence_no, filled_trim, is_misnamed, is_candidate, candidates_of,
  attach, save_job, add_key, attribute, process, process_content, skips, scan_file, scan_folder,
}

keep-update_first-nil {ℓ} :
    {A : Type ℓ} (p hit : A → Bool) (f : A → A)
    → ((x : A) → p (f x) ≡ p x)
    → (xs : List A) → keep p xs ≡ []
    → keep p (update_first hit f xs) ≡ []
keep-update_first-nil p hit f same [] e = refl
keep-update_first-nil p hit f same (y ∷ ys) e =
    ground (arith, same y, keep-update_first-nil p hit f same ys)

module _ (read : Text → Option Text) (join : Text → Text → Text) where
  -- The reasons for which a file changes nothing.
  data Settled (dir file : Text) (w : Watch) : Type 0 where
    skipped : skips dir file w ≡ true → Settled dir file w
    unreadable : read (join dir file) ≡ none → Settled dir file w
    waiting :
        (content plate : Text)
        → read (join dir file) ≡ some content
        → filled_trim (licence_no (parse_ini content)) ≡ some plate
        → is_misnamed file plate ≡ false
        → candidates_of plate w.db ≡ []
        → Settled dir file w

  if_same : {w x : Watch} → (b : Bool) → x ≡ w → (if b then w else x) ≡ w
  if_same true e = refl
  if_same false e = e

  Settled-unchanged :
      (dir file : Text) (w : Watch) → Settled dir file w → scan_file read join dir file w ≡ w
  unfolding scan_file
  Settled-unchanged dir file w (Settled.skipped h) =
      ap
        (λ b.
          if b
          then w
          else process_content (key_of dir file) file (join dir file) (read (join dir file)) w)
        h
  Settled-unchanged dir file w (Settled.unreadable h) =
      if_same (skips dir file w)
        (ap (λ o. process_content (key_of dir file) file (join dir file) o w) h)
  Settled-unchanged dir file w (Settled.waiting content plate r l m c) =
      let key = key_of dir file in
      let path = join dir file in
      let parsed = parse_ini content in
      if_same (skips dir file w) (
        ap (λ o. process_content key file path o w) r
        ∙ ap (λ p. process key file path parsed p w) l
        ∙ ap
            (λ b.
              if b
              then add_key key w
              else attribute key file path parsed (candidates_of plate w.db) w)
            m
        ∙ ap (λ jobs. attribute key file path parsed jobs w) c)

  skips-tail :
      (dir file key : Text) (w w' : Watch)
      → w'.processed ≡ key ∷ w.processed
      → skips dir file w ≡ true
      → skips dir file w' ≡ true
  skips-tail dir file key w w' e h =
      ap (λ ks. not (is_result_file file) || any (text_eq (key_of dir file)) ks) e ∙ ground arith

  candidates-saved :
      (plate file path : Text) (parsed : Ini) (id : ℕ) (db : Db)
      → candidates_of plate db ≡ []
      → candidates_of plate (save_job id (attach file path parsed) db) ≡ []
  unfolding candidates_of
  candidates-saved plate file path parsed id db e =
      keep-update_first-nil (is_candidate plate db) (λ j. j.id == id) (attach file path parsed)
        (λ _. refl) db.jobs e

  Settled-Step :
      {dir file : Text} {w w' : Watch} → Step w w' → Settled dir file w → Settled dir file w'
  Settled-Step (Step.stays w) h = h
  Settled-Step {dir} {file} (Step.remembers w key) (Settled.skipped h) =
      Settled.skipped (skips-tail dir file key w (add_key key w) refl h)
  Settled-Step (Step.remembers w key) (Settled.unreadable h) = Settled.unreadable h
  Settled-Step (Step.remembers w key) (Settled.waiting content plate r l m c) =
      Settled.waiting content plate r l m c
  Settled-Step {dir} {file} (Step.attaches w key f path parsed _ job only) (Settled.skipped h) =
      Settled.skipped (
        skips-tail dir file key w
          (record {
            processed = key ∷ w.processed;
            db = save_job job.id (attach f path parsed) w.db;
          })
          refl h)
  Settled-Step (Step.attaches w key f path parsed _ job only) (Settled.unreadable h) =
      Settled.unreadable h
  Settled-Step (Step.attaches w key f path parsed _ job only)
        (Settled.waiting content plate r l m c) =
      Settled.waiting content plate r l m (candidates-saved plate f path parsed job.id w.db c)

  skips-head :
      (dir file : Text) (w w' : Watch)
      → w'.processed ≡ key_of dir file ∷ w.processed
      → skips dir file w' ≡ true
  skips-head dir file w w' e =
      ap (λ ks. not (is_result_file file) || any (text_eq (key_of dir file)) ks) e
      ∙ ground (arith, text_eq_refl (key_of dir file))

  attribute-Settled :
      (dir file content plate : Text) (w : Watch)
      → read (join dir file) ≡ some content
      → filled_trim (licence_no (parse_ini content)) ≡ some plate
      → is_misnamed file plate ≡ false
      → (jobs : List Job) → candidates_of plate w.db ≡ jobs
      → Settled dir file
          (attribute (key_of dir file) file (join dir file) (parse_ini content) jobs w)
  attribute-Settled dir file content plate w r l m [] c = Settled.waiting content plate r l m c
  attribute-Settled dir file content plate w r l m (j ∷ []) c = Settled.skipped (
      skips-head dir file w
        (attribute (key_of dir file) file (join dir file) (parse_ini content) (j ∷ []) w) refl)
  attribute-Settled dir file content plate w r l m (j ∷ k ∷ jobs) c =
      Settled.skipped (skips-head dir file w (add_key (key_of dir file) w) refl)

  process-Settled :
      (dir file content : Text) (w : Watch)
      → read (join dir file) ≡ some content
      → (plate : Option Text) → filled_trim (licence_no (parse_ini content)) ≡ plate
      → Settled dir file
          (process (key_of dir file) file (join dir file) (parse_ini content) plate w)
  process-Settled dir file content w r none l =
      Settled.skipped (skips-head dir file w (add_key (key_of dir file) w) refl)
  process-Settled dir file content w r (some plate) l = go (is_misnamed file plate) refl
    where
      go :
          (b : Bool)
          → is_misnamed file plate ≡ b
          → Settled dir file (
              if b
              then add_key (key_of dir file) w
              else attribute
                  (key_of dir file)
                  file
                  (join dir file)
                  (parse_ini content)
                  (candidates_of plate w.db)
                  w)
      go true m = Settled.skipped (skips-head dir file w (add_key (key_of dir file) w) refl)
      go false m = attribute-Settled dir file content plate w r l m (candidates_of plate w.db) refl

  scan_file-Settled :
      (dir file : Text) (w : Watch) → Settled dir file (scan_file read join dir file w)
  unfolding scan_file
  scan_file-Settled dir file w = go (skips dir file w) refl
    where
      content :
          (c : Option Text)
          → read (join dir file) ≡ c
          → Settled dir file (process_content (key_of dir file) file (join dir file) c w)
      content none r = Settled.unreadable r
      content (some c) r =
          process-Settled dir file c w r (filled_trim (licence_no (parse_ini c))) refl

      go :
          (b : Bool)
          → skips dir file w ≡ b
          → Settled dir file (
              if b
              then w
              else process_content (key_of dir file) file (join dir file) (read (join dir file)) w)
      go true h = Settled.skipped h
      go false h = content (read (join dir file)) refl

  scan_folder-keeps :
      (dir file : Text) (files : List Text) (w : Watch)
      → Settled dir file w
      → Settled dir file (scan_folder read join dir files w)
  unfolding scan_folder
  scan_folder-keeps dir file [] w h = h
  scan_folder-keeps dir file (f ∷ files) w h =
      scan_folder-keeps dir file files (scan_file read join dir f w)
        (Settled-Step (scan_file-Step read join dir f w) h)

  abbrev AllSettled : Text → List Text → Watch → Type 0
  AllSettled dir [] w = Unit
  AllSettled dir (f ∷ files) w = Settled dir f w × AllSettled dir files w

  scan_folder-AllSettled :
      (dir : Text) (files : List Text) (w : Watch)
      → AllSettled dir files (scan_folder read join dir files w)
  unfolding scan_folder
  scan_folder-AllSettled dir [] w = tt
  scan_folder-AllSettled dir (f ∷ files) w = (
    scan_folder-keeps dir f files (scan_file read join dir f w) (scan_file-Settled dir f w),
    scan_folder-AllSettled dir files (scan_file read join dir f w),
  )

  AllSettled-unchanged :
      (dir : Text) (files : List Text) (w : Watch)
      → AllSettled dir files w
      → scan_folder read join dir files w ≡ w
  unfolding scan_folder
  AllSettled-unchanged dir [] w h = refl
  AllSettled-unchanged dir (f ∷ files) w h =
      ap (scan_folder read join dir files) (Settled-unchanged dir f w h.0)
      ∙ AllSettled-unchanged dir files w h.1

  -- A second pass over the same files changes nothing, whatever the files hold, as long as no job was
  -- changed by others in between: no result is attached twice.
  pub scan_folder-scan_folder :
      (dir : Text) (files : List Text) (w : Watch)
      → scan_folder read join dir files (scan_folder read join dir files w)
        ≡ scan_folder read join dir files w
  scan_folder-scan_folder dir files w =
      AllSettled-unchanged dir files (scan_folder read join dir files w)
        (scan_folder-AllSettled dir files w)
