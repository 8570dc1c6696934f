-- ===== src/Exchange/Frame.antt =====
-- What a cycle of the watcher leaves alone.
use ivis_backend.Base.{
  ℕ, ◌==◌, ◌≤◌, Bool, true, false, ◌||◌, not, Option, none, some, List, [], ◌∷◌, keep, find, map,
  tally, update_first, find_unique, tally-update_first_same, Memᴰ-keep, Text, text, text_eq, ◌≡◌,
  refl, subst, sym, ap, ◌∙◌, arith,
}
use mathlib.Core.List.{Memᴰ}
use ivis_backend.Store.Entities.{Job, Db}
use ivis_backend.Exchange.Watcher.{
  Watch, filled_trim, is_candidate, candidates_of, attach, scan_file, scan_folder, scan_listed,
  scan_all, tick,
}
use ivis_backend.Exchange.Steps.{Step, scan_file-Step}

-- A job without the columns that the watcher writes.
abbrev pub without_results : Job → Job
without_results j = record j {
  test_results = none;
  overall_result = none;
  outfile_name = none;
  outfile_path = none;
}

abbrev pub frame : Db → Db
frame db = record db { jobs = map without_results db.jobs }

-- A job that no file can change.
abbrev pub is_closed : Job → Bool
is_closed j = j.is_deleted || not (text_eq j.status (text "In Progress"))

-- The primary key of `jobs`.
abbrev pub HasDistinctIds : Db → Type 0
HasDistinctIds db = (id : ℕ) → tally (λ (j : Job). j.id == id) db.jobs ≤ 1

map-update_first :
    (g f : Job → Job) (hit : Job → Bool)
    → ((j : Job) → g (f j) ≡ g j)
    → (jobs : List Job) → map g (update_first hit f jobs) ≡ map g jobs
map-update_first g f hit same [] = refl
map-update_first g f hit same (j ∷ jobs) =
    ground (arith, same j, map-update_first g f hit same jobs)

keep-update_first-other :
    (p hit : Job → Bool) (f : Job → Job) (jobs : List Job) {x : Job}
    → find hit jobs ≡ some x
    → p x ≡ false
    → p (f x) ≡ false
    → keep p (update_first hit f jobs) ≡ keep p jobs
keep-update_first-other p hit f [] e out still = absurd cc
keep-update_first-other p hit f (y ∷ ys) {x} e out still =
    ground (arith, keep-update_first-other p hit f ys {x = x})

candidate-open :
    (plate : Text) (db : Db) (job : Job)
    → candidates_of plate db ≡ job ∷ []
    → Memᴰ job db.jobs × (is_closed job ≡ false)
unfolding candidates_of is_candidate
candidate-open plate db job only =
    let m : Memᴰ job (candidates_of plate db) =
      subst (λ js. Memᴰ job js) (sym only) (Memᴰ.head refl) in
    let (there, passes) = Memᴰ-keep (is_candidate plate db) db.jobs m in (there, ground arith)

-- What a step keeps.
record Keeps (w w' : Watch) : Type 0 where
  framed : frame w'.db ≡ frame w.db
  distinct : HasDistinctIds w.db → HasDistinctIds w'.db
  closed : HasDistinctIds w.db → keep is_closed w'.db.jobs ≡ keep is_closed w.db.jobs

Step-Keeps : {w w' : Watch} → Step w w' → Keeps w w'
Step-Keeps (Step.stays w) = record { framed = refl; distinct = λ d. d; closed = λ _. refl }
Step-Keeps (Step.remembers w key) = record { framed = refl; distinct = λ d. d; closed = λ _. refl }
Step-Keeps (Step.attaches w key file path parsed plate job only) =
    let change = attach file path parsed in
    let hit : Job → Bool = λ j. j.id == job.id in
    let (there, open_job) = candidate-open plate w.db job only in
    record {
      framed =
          ap (λ js. record w.db { jobs = js })
            (map-update_first without_results change hit (λ _. refl) w.db.jobs);
      distinct = λ d id.
          rw (tally-update_first_same (λ (j : Job). j.id == id) hit change (λ _. refl) w.db.jobs)
            (d id);
      closed = λ d.
          keep-update_first-other is_closed hit change w.db.jobs
            (find_unique hit w.db.jobs there (ground arith) (d job.id)) open_job open_job;
    }

Keeps-trans : {u v w : Watch} → Keeps u v → Keeps v w → Keeps u w
Keeps-trans a b = record {
  framed = b.framed ∙ a.framed;
  distinct = λ d. b.distinct (a.distinct d);
  closed = λ d. b.closed (a.distinct d) ∙ a.closed d;
}

module _ (read : Text → Option Text) (join : Text → Text → Text) where
  scan_folder-Keeps :
      (dir : Text) (files : List Text) (w : Watch) → Keeps w (scan_folder read join dir files w)
  unfolding scan_folder
  scan_folder-Keeps dir [] w = Step-Keeps (Step.stays w)
  scan_folder-Keeps dir (f ∷ files) w =
      Keeps-trans (Step-Keeps (scan_file-Step read join dir f w))
        (scan_folder-Keeps dir files (scan_file read join dir f w))

  module _ (list_files : Text → Option (List Text)) where
    scan_listed-Keeps : (dir : Text) (w : Watch) → Keeps w (scan_listed read join list_files dir w)
    scan_listed-Keeps dir w = go (list_files dir)
      where
        go :
            (files : Option (List Text))
            → Keeps w (elim files [ none ↦ w | some fs ↦ scan_folder read join dir fs w ])
        go none = Step-Keeps (Step.stays w)
        go (some fs) = scan_folder-Keeps dir fs w

    if_filled-Keeps :
        (dir : Option Text) (w : Watch)
        → Keeps w (elim dir [ none ↦ w | some d ↦ scan_listed read join list_files d w ])
    if_filled-Keeps none w = Step-Keeps (Step.stays w)
    if_filled-Keeps (some d) w = scan_listed-Keeps d w

    scan_all-Keeps :
        (paths : List (Option Text)) (w : Watch) → Keeps w (scan_all read join list_files paths w)
    scan_all-Keeps [] w = Step-Keeps (Step.stays w)
    scan_all-Keeps (path ∷ paths) w = Keeps-trans (if_filled-Keeps (filled_trim path) w) (
        scan_all-Keeps paths
          (elim (filled_trim path) [ none ↦ w | some d ↦ scan_listed read join list_files d w ]))

    tick-Keeps :
        (disabled : Bool) (paths : List (Option Text)) (w : Watch)
        → Keeps w (tick read join list_files disabled paths w)
    unfolding tick
    tick-Keeps true paths w = Step-Keeps (Step.stays w)
    tick-Keeps false paths w = scan_all-Keeps paths w

    -- Whatever the folders hold, a cycle of the watcher changes nothing of the database but the result,
    -- the verdict and the file columns of jobs, and where the ids of the jobs are distinct it changes no
    -- job that is deleted or not in progress.
    pub tick-frame :
        (disabled : Bool) (paths : List (Option Text)) (w : Watch)
        → HasDistinctIds w.db
        → (frame (tick read join list_files disabled paths w).db ≡ frame w.db)
          × (keep is_closed (tick read join list_files disabled paths w).db.jobs
              ≡ keep is_closed w.db.jobs)
    tick-frame disabled paths w d =
        let kept = tick-Keeps disabled paths w in (kept.framed, kept.closed d)
