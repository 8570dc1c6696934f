-- ===== src/Submission/Updated.antt =====
-- What an update does to a job that is there.
use ivis_backend.Base.{
  ℕ, ◌==◌, ◌&&◌, not, Option, none, some, find, find-update_first_both, find_passes, ◌≡◌, ap, ◌∙◌,
  arith,
}
use ivis_backend.Store.Entities.{Job, Db}
use ivis_backend.Store.Dao.{active_job}
use ivis_backend.Store.Action.{Action, ok, pure, ◌>>◌}
use ivis_backend.Store.Runs.{bind_ok, or_throw_ok}
use ivis_backend.Pricing.{find_one}
use ivis_backend.Exchange.Watcher.{save_job}
use ivis_backend.Submission.Update.{
  UpdateJobDto, validate_update, merge, hide_all_but_missing, save_merged, update_body, update,
}

-- The row that a search by id finds is the active job.
abbrev pub IsOwnRow : ℕ → Db → Job → Type 0
IsOwnRow id db job = (active_job id db ≡ some job) × (find (λ j. j.id == job.id) db.jobs ≡ some job)

active_job-id : (id : ℕ) (db : Db) {j : Job} → active_job id db ≡ some j → j.id ≡ id
active_job-id id db e =
    let passes = find_passes (λ q. q.id == id && not q.is_deleted) db.jobs e in ground arith

active_job-save_job :
    (id : ℕ) (dto : UpdateJobDto) (db : Db) (job : Job)
    → IsOwnRow id db job
    → active_job job.id (save_job job.id (merge dto) db) ≡ some (merge dto job)
active_job-save_job id dto db job (active, own) =
    let same = active_job-id id db active in
    let passes = find_passes (λ q. q.id == id && not q.is_deleted) db.jobs active in
    find-update_first_both (λ q. q.id == job.id && not q.is_deleted) (λ q. q.id == job.id)
      (merge dto) db.jobs {x = job} own (ap (λ k. active_job k db) same ∙ active) (ground arith)

save_merged_ok :
    (id : ℕ) (dto : UpdateJobDto) (db : Db) (job : Job)
    → IsOwnRow id db job
    → save_merged dto job db ≡ (ok (merge dto job), save_job job.id (merge dto) db)
save_merged_ok id dto db job own =
    let answer : Option Job → Action Job =
      λ o. elim o [ none ↦ pure (merge dto job) | some j ↦ pure j ] in
    ap (λ o. answer o (save_job job.id (merge dto) db)) (active_job-save_job id dto db job own)

-- An update whose references are active writes the posted columns of the job, and returns it.
pub update_ok :
    (id : ℕ) (dto : UpdateJobDto) (db : Db) (job : Job)
    → IsOwnRow id db job
    → validate_update dto db ≡ (ok tt, db)
    → update id dto db ≡ (ok (merge dto job), save_job job.id (merge dto) db)
unfolding update update_body
update_ok id dto db job own valid = ap hide_all_but_missing (
    bind_ok (find_one id) (λ j. validate_update dto >> save_merged dto j) (or_throw_ok _ own.0)
    ∙ bind_ok (validate_update dto) (λ _. save_merged dto job) valid
    ∙ save_merged_ok id dto db job own)
