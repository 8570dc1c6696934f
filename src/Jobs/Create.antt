-- ===== src/Jobs/Create.antt =====
-- The rows and the numbers that `create` writes.
use ivis_backend.Base.{
  ℕ, ◌<◌, All, All-map, find_fresh, find-append_new, zero, suc, ◌++◌, ◌==◌, ltb, true, false, ◌&&◌,
  not, Option, none, some, List, [], ◌∷◌, refl, ◌≡◌, sym, ap, ◌∙◌, arith, inl, inr, Bool-cases,
  or_else, any,
}
use ivis_backend.Store.Entities.{Job, Db}
use ivis_backend.Store.Action.{
  Action, Error, ok, err, pure, ◌>>=◌, throw_if, modify, hide_other_errors,
}
use ivis_backend.Store.Dao.{max_of, next_job_id, active_job, insert_job}
use ivis_backend.Store.Runs.{
  hide_other_errors_inv, ok_inv, bind_inv, bind_ok, bind_err, throw_if_err, throw_if_ok,
}
use ivis_backend.Jobs.Service.{
  CreateJobDto, status_or_pending, validate_job_references, job_number, new_job, reload, save_new,
  create_body, create,
}

-- Every id was drawn before the next.
abbrev pub FreshJobs : Db → Type 0
FreshJobs db = All (λ j. ltb j.id db.next_id ≡ true) db.jobs

validate_inv :
    (dto : CreateJobDto) (db db' : Db) → validate_job_references dto db ≡ (ok tt, db') → db' ≡ db
unfolding validate_job_references
validate_inv dto db db' e = ground arith

job_number_inv : (n : Option ℕ) (db db' : Db) {k : ℕ} → job_number n db ≡ (ok k, db') → db' ≡ db
job_number_inv none db db' e = ground arith
job_number_inv (some zero) db db' e = ground arith
job_number_inv (some (suc n)) db db' e = ground arith

insert_job_ok :
    (j : Job) (db : Db)
    → any (λ q. q.job_id == j.job_id) db.jobs ≡ false
    → insert_job j db ≡ (ok tt, record db { jobs = db.jobs ++ j ∷ [] })
insert_job_ok j db free =
    bind_ok (throw_if _ Error.database) (λ _. modify (λ db. record db { jobs = db.jobs ++ j ∷ [] }))
      (throw_if_ok Error.database free)

insert_job_err :
    (j : Job) (db : Db)
    → any (λ q. q.job_id == j.job_id) db.jobs ≡ true
    → insert_job j db ≡ (err Error.database, db)
insert_job_err j db taken =
    bind_err (throw_if _ Error.database)
      (λ _. modify (λ db. record db { jobs = db.jobs ++ j ∷ [] }))
      (throw_if_err Error.database taken)

-- The state that a saved job leaves.
abbrev pub with_job : CreateJobDto → ℕ → Db → Db
with_job dto number db = record db {
  next_id = suc db.next_id;
  jobs = db.jobs ++ new_job dto number db.next_id ∷ [];
}

abbrev pub drawn : Db → Db
drawn db = record db { next_id = suc db.next_id }

pub active_job-with_job :
    (dto : CreateJobDto) (number : ℕ) (db : Db)
    → FreshJobs db
    → active_job db.next_id (with_job dto number db) ≡ some (new_job dto number db.next_id)
active_job-with_job dto number db fresh =
    find-append_new (λ q. q.id == db.next_id && not q.is_deleted) db.jobs
      (new_job dto number db.next_id)
      (find_fresh (λ q. q.id == db.next_id && not q.is_deleted) db.jobs
        (All-map (λ q h. ground arith) db.jobs fresh))
      (ground arith)

save_new_ok :
    (dto : CreateJobDto) (number : ℕ) (db : Db)
    → FreshJobs db
    → any (λ q. q.job_id == number) db.jobs ≡ false
    → save_new dto number db ≡ (ok (new_job dto number db.next_id), with_job dto number db)
save_new_ok dto number db fresh free =
    bind_ok (insert_job (new_job dto number db.next_id))
      (λ _. reload (new_job dto number db.next_id))
      (insert_job_ok (new_job dto number db.next_id) (drawn db) free)
    ∙ ap
        (λ found.
          elim found as (λ _. Action Job) [
            | none ↦ pure (new_job dto number db.next_id)
            | some job ↦ pure job
          ]
            (with_job dto number db))
        (active_job-with_job dto number db fresh)

pub save_new_err :
    (dto : CreateJobDto) (number : ℕ) (db : Db)
    → any (λ q. q.job_id == number) db.jobs ≡ true
    → save_new dto number db ≡ (err Error.database, drawn db)
save_new_err dto number db taken =
    bind_err (insert_job (new_job dto number db.next_id))
      (λ _. reload (new_job dto number db.next_id))
      (insert_job_err (new_job dto number db.next_id) (drawn db) taken)

pub create_inv :
    (dto : CreateJobDto) (db db' : Db) {j : Job}
    → FreshJobs db
    → create dto db ≡ (ok j, db')
    → (number : ℕ) × (job_number dto.job_id db ≡ (ok number, db))
      × (validate_job_references dto db ≡ (ok tt, db))
      × (any (λ q. q.job_id == number) db.jobs ≡ false)
      × (j ≡ new_job dto number db.next_id)
      × (db' ≡ with_job dto number db)
unfolding create create_body
create_inv dto db db' {j} fresh e =
    let body = hide_other_errors_inv _ e in
    let (_, d1, valid, rest) =
      bind_inv (validate_job_references dto) (λ _. job_number dto.job_id >>= save_new dto) body in
    let (number, d2, numbered, saved) = bind_inv (job_number dto.job_id) (save_new dto) rest in
    let same = validate_inv dto db d1 valid in
    let same' = job_number_inv dto.job_id d1 d2 numbered in
    let saved' : save_new dto number db ≡ (ok j, db') =
      ap (save_new dto number) (sym (same' ∙ same)) ∙ saved in
    let numbered' : job_number dto.job_id db ≡ (ok number, db) =
      ap (job_number dto.job_id) (sym same) ∙ numbered ∙ ap (λ d. (ok number, d)) (same' ∙ same) in
    elim (Bool-cases (any (λ q. q.job_id == number) db.jobs)) [
      | inl taken ↦ absurd (let z = sym (save_new_err dto number db taken) ∙ saved' in cc)
      | inr free ↦
          let (made, left) = ok_inv (sym (save_new_ok dto number db fresh free) ∙ saved') in
          (number, numbered', valid ∙ ap (λ d. (ok tt, d)) same, free, made, left)
    ]

validate_state : (dto : CreateJobDto) (db : Db) → (validate_job_references dto db).1 ≡ db
unfolding validate_job_references
validate_state dto db = ground arith

job_number_state : (n : Option ℕ) (db : Db) → (job_number n db).1 ≡ db
job_number_state none db = refl
job_number_state (some zero) db = refl
job_number_state (some (suc n)) db = ground arith

max_of_above :
    (n : ℕ) (jobs : List Job)
    → max_of (λ (j : Job). j.job_id) jobs < n
    → any (λ q. q.job_id == n) jobs ≡ false
max_of_above n [] h = refl
max_of_above n (j ∷ js) h = ground (arith, max_of_above n js)

job_number_next :
    (n : Option ℕ) (db : Db)
    → or_else n (some 0) ≡ some 0
    → job_number n db ≡ (ok (next_job_id db), db)
job_number_next none db e = refl
job_number_next (some zero) db e = refl
job_number_next (some (suc n)) db e = absurd (ground arith)

-- If the next id is larger than the id of every job, then a job posted without a number (or with the
-- number 0), whose references are all active, is created: its number is one more than the largest so
-- far, deleted jobs counted, it is the row found under its id, it starts with the posted status
-- (Pending if none is posted), and it is assigned to nobody, whoever was posted. It is added to the
-- jobs before it, which stay.
pub create_unnumbered :
    (dto : CreateJobDto) (db : Db)
    → FreshJobs db
    → or_else dto.job_id (some 0) ≡ some 0
    → validate_job_references dto db ≡ (ok tt, db)
    → (j : Job) × (after : Db) × (create dto db ≡ (ok j, after))
      × (j.job_id ≡ next_job_id db)
      × (active_job j.id after ≡ some j)
      × (j.status ≡ status_or_pending dto.status)
      × (j.assigned_user_id ≡ none)
      × (after.jobs ≡ db.jobs ++ j ∷ [])
unfolding create create_body
create_unnumbered dto db fresh unnumbered valid =
    let number = next_job_id db in
    let free = max_of_above number db.jobs (omega arith) in
    let run : create_body dto db ≡ (ok (new_job dto number db.next_id), with_job dto number db) =
      bind_ok (validate_job_references dto) (λ _. job_number dto.job_id >>= save_new dto) valid
      ∙ bind_ok (job_number dto.job_id) (save_new dto) (job_number_next dto.job_id db unnumbered)
      ∙ save_new_ok dto number db fresh free in
    (
      new_job dto number db.next_id,
      with_job dto number db,
      ap hide_other_errors run,
      refl,
      active_job-with_job dto number db fresh,
      refl,
      refl,
      refl,
    )
