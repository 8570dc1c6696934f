-- ===== src/Jobs/Removal.antt =====
-- `remove` of jobs/services/job.service.ts, a soft delete, and what it leaves of the job's number.
use ivis_backend.Base.{
  ℕ, suc, ◌+◌, ◌==◌, ◌≡◌, refl, ap, ◌∙◌, Bool, true, none, some, List, [], ◌∷◌, is_some, any, find,
  find-update_first, update_first, arith,
}
use ivis_backend.Store.Entities.{Job, Db}
use ivis_backend.Store.Action.{
  Action, Error, Resource, ok, err, modify, hide_other_errors, ◌>>=◌, ◌>>◌, throw_if, pure,
}
use ivis_backend.Store.Runs.{bind_ok, or_throw_ok}
use ivis_backend.Store.Dao.{active_job, find_by_job_number, max_of, next_job_id}
use ivis_backend.Pricing.{find_one}
use ivis_backend.Jobs.Service.{
  CreateJobDto, validate_job_references, job_number, save_new, create_body, create,
}
use ivis_backend.Jobs.Create.{drawn, save_new_err}

abbrev pub save_deleted : Job → Action (Unit {0})
save_deleted j = modify (λ db. record db {
  jobs = update_first (λ q. q.id == j.id) (λ _. record j { is_deleted = true }) db.jobs;
})

-- Besides `Job not found`, which is passed on, nothing here fails.
unfoldable pub remove : ℕ → Action (Unit {0})
remove id db = hide_other_errors ((find_one id >>= save_deleted) db)

-- Replacing the row that a search by id finds first by one with the same number leaves the maximum.
max_of-update_first :
    (hit : Job → Bool) (y : Job) (jobs : List Job) {x : Job}
    → find hit jobs ≡ some x
    → y.job_id ≡ x.job_id
    → max_of (λ (j : Job). j.job_id) (update_first hit (λ _. y) jobs)
      ≡ max_of (λ (j : Job). j.job_id) jobs
max_of-update_first hit y [] e same = absurd cc
max_of-update_first hit y (z ∷ zs) {x} e same = ground (arith, max_of-update_first hit y zs {x = x})

-- If the row with the id is the active job, removing it succeeds and gives its number to no later job:
-- the next number is the same as before, and the job's row, now deleted, still carries its own.
pub remove-next_job_id :
    (id : ℕ) (db : Db) (j : Job)
    → active_job id db ≡ some j
    → find (λ q. q.id == j.id) db.jobs ≡ some j
    → (after : Db) × (remove id db ≡ (ok tt, after))
      × (next_job_id after ≡ next_job_id db)
      × (find (λ q. q.id == j.id) after.jobs ≡ some (record j { is_deleted = true }))
unfolding remove
remove-next_job_id id db j found row =
    let gone = record j { is_deleted = true } in
    let after = record db { jobs = update_first (λ q. q.id == j.id) (λ _. gone) db.jobs } in
    (
      after,
      ap hide_other_errors (bind_ok (find_one id) save_deleted (or_throw_ok _ found)),
      ap (λ n. n + 1) (max_of-update_first (λ q. q.id == j.id) gone db.jobs row refl),
      find-update_first (λ q. q.id == j.id) (λ _. gone) db.jobs row (ground arith),
    )

-- A job posted with the number of a deleted job, where no other active job has it and all references
-- are active, is not refused as a duplicate: it is answered as a failure of the database, after an id
-- was drawn.
pub create-removed_number :
    (dto : CreateJobDto) (n : ℕ) (db : Db)
    → dto.job_id ≡ some (suc n)
    → find_by_job_number (suc n) db ≡ none
    → any (λ q. q.job_id == suc n) db.jobs ≡ true
    → validate_job_references dto db ≡ (ok tt, db)
    → create dto db ≡ (err Error.database, drawn db)
unfolding create create_body
create-removed_number dto n db posted unused taken valid =
    let numbered : job_number dto.job_id db ≡ (ok (suc n), db) =
      ap (λ k. job_number k db) posted
      ∙ ap (λ f. (throw_if (is_some f) (Error.duplicate Resource.job) >> pure (suc n)) db) unused in
    ap hide_other_errors (
      bind_ok (validate_job_references dto) (λ _. job_number dto.job_id >>= save_new dto) valid
      ∙ bind_ok (job_number dto.job_id) (save_new dto) numbered
      ∙ save_new_err dto (suc n) db taken)
