-- ===== src/Jobs/Convert.antt =====
-- What a conversion has checked when it succeeds, and what it leaves.
use ivis_backend.Base.{
  ℕ, ◌≤◌, All, All-map, find, ◌==◌, ltb, true, ◌&&◌, not, Option, none, some, ◌≡◌, sym, ap, subst,
  find, find_passes, find-update_first_const, ◌∙◌, arith, any, update_first,
}
use ivis_backend.Store.Entities.{AppointmentStatus, AnprCapture, Appointment, Job, Db}
use ivis_backend.Store.Action.{Error, Resource, Reason, ok, err, pure, or_throw, ◌>>=◌, ◌>>◌}
use ivis_backend.Store.Dao.{active_job, active_appointment}
use ivis_backend.Store.Runs.{split_run, ok_inv, bind_inv, or_throw_inv, bind_ok, or_throw_ok}
use ivis_backend.Jobs.Guards.{Ready, convertible_inv}
use ivis_backend.Jobs.Create.{FreshJobs, create_inv, with_job, active_job-with_job}
use ivis_backend.Jobs.Service.{CreateJobDto, new_job, create}
use ivis_backend.Jobs.Conversion.{
  Assignment, resolve_vehicle_record, resolve_assignment, works_on_line, save_converted,
  link_existing_payment_to_job, finish, convert, create_from_appointment, job_for, convertible,
}

resolve_vehicle_record_frame :
    (a : Appointment) (capture : AnprCapture) (db db' : Db) {v : ℕ}
    → resolve_vehicle_record a capture db ≡ (ok v, db')
    → (db'.jobs ≡ db.jobs)
      × (db'.appointments ≡ db.appointments)
      × (db.next_id ≤ db'.next_id)
      × (db'.line_users ≡ db.line_users)
unfolding resolve_vehicle_record
resolve_vehicle_record_frame a capture db db' e = ground arith

resolve_assignment_inv :
    (a : Appointment) (assignment : Option Assignment) (db db' : Db) {c : Assignment}
    → resolve_assignment a assignment db ≡ (ok c, db')
    → (assignment ≡ some c) × (works_on_line c.assigned_user_id c.line_id db ≡ true) × (db' ≡ db)
unfolding resolve_assignment
resolve_assignment_inv a none db db' e = absurd (ground arith)
resolve_assignment_inv a (some x) db db' {c} e = (ground arith, ground arith, ground arith)

link_frame :
    (id job : ℕ) (db db' : Db) {u : Unit {0}}
    → link_existing_payment_to_job id job db ≡ (ok u, db')
    → (db'.jobs ≡ db.jobs) × (db'.appointments ≡ db.appointments)
unfolding link_existing_payment_to_job
link_frame id job db db' e = ground arith

finish_inv :
    (a : Appointment) (job : Job) (db db' : Db) {j : Job}
    → finish a job db ≡ (ok j, db')
    → (j ≡ job)
      × (db'.jobs ≡ db.jobs)
      × (db'.appointments
          ≡ update_first
              (λ q. q.id == a.id)
              (λ _. record a { status = AppointmentStatus.converted })
              db.appointments)
finish_inv a job db db' e =
    let (_, mid, saved, rest) =
      bind_inv (save_converted a) (λ _. link_existing_payment_to_job a.id job.id >> pure job) e in
    let (_, left, linked, done) =
      bind_inv (link_existing_payment_to_job a.id job.id) (λ _. pure job) rest in
    let (_, state) = ok_inv saved in
    let (same, end) = ok_inv done in
    let (jobs, appointments) = link_frame a.id job.id mid left linked in
    (
      same,
      ap (λ d. d.jobs) end ∙ jobs ∙ ap (λ d. d.jobs) state,
      ap (λ d. d.appointments) end ∙ appointments ∙ ap (λ d. d.appointments) state,
    )

-- What the second half of a conversion, from the vehicle record on, has checked and left.
pub record Filed (a : Appointment) (assignment : Option Assignment) (customer : ℕ)
    (capture : AnprCapture) (db db' : Db) (j : Job) : Type 0 where
  pub chosen : Assignment
  pub was_chosen : assignment ≡ some chosen
  pub on_line : works_on_line chosen.assigned_user_id chosen.line_id db ≡ true
  pub of_appointment : j.appointment_id ≡ some a.id
  pub of_customer : j.customer_id ≡ customer
  pub of_capture : j.anpr_capture_id ≡ some capture.id
  pub of_line : j.line_id ≡ some chosen.line_id
  pub of_nobody : j.assigned_user_id ≡ none
  pub is_row : active_job j.id db' ≡ some j
  pub updated :
      db'.appointments
      ≡ update_first
          (λ q. q.id == a.id)
          (λ _. record a { status = AppointmentStatus.converted })
          db.appointments

FreshJobs-resolve :
    (db db' : Db) → db'.jobs ≡ db.jobs → db.next_id ≤ db'.next_id → FreshJobs db → FreshJobs db'
FreshJobs-resolve db db' same grows fresh =
    subst (λ js. All (λ q. ltb q.id db'.next_id ≡ true) js) (sym same)
      (All-map (λ q h. ground arith) db.jobs fresh)

active_job-filed :
    (dto : CreateJobDto) (number : ℕ) (mid db' : Db) {j : Job}
    → FreshJobs mid
    → j ≡ new_job dto number mid.next_id
    → db'.jobs ≡ (with_job dto number mid).jobs
    → active_job j.id db' ≡ some j
active_job-filed dto number mid db' {j} fresh made left =
    ap (λ q. find (λ x. x.id == q.id && not x.is_deleted) db'.jobs) made
    ∙ ap (λ js. find (λ x. x.id == mid.next_id && not x.is_deleted) js) left
    ∙ active_job-with_job dto number mid fresh
    ∙ ap some (sym made)

-- The last two steps.
create-finish_inv :
    (a : Appointment) (dto : CreateJobDto) (db db' : Db) {j : Job}
    → FreshJobs db
    → (create dto >>= finish a) db ≡ (ok j, db')
    → (number : ℕ) × (j ≡ new_job dto number db.next_id)
      × (active_job j.id db' ≡ some j)
      × (db'.appointments
          ≡ update_first
              (λ q. q.id == a.id)
              (λ _. record a { status = AppointmentStatus.converted })
              db.appointments)
create-finish_inv a dto db db' {j} fresh e =
    split_run (create dto) (finish a) e λ job mid created rest.
      let (number, _, _, _, made, left) = create_inv dto db mid fresh created in
      let (mine, jobs, appointments) = finish_inv a job mid db' rest in
      (
        number,
        mine ∙ made,
        active_job-filed dto number db db' fresh (mine ∙ made) (jobs ∙ ap (λ d. d.jobs) left),
        appointments
            ∙ ap
                (λ d.
                  update_first (λ q. q.id == a.id)
                    (λ _. record a { status = AppointmentStatus.converted }) d.appointments)
                left,
      )

convert_inv :
    (a : Appointment) (center : Option ℕ) (assignment : Option Assignment) (customer : ℕ)
    (capture : AnprCapture) (db db' : Db) {j : Job}
    → FreshJobs db
    → convert a center assignment (customer, capture) db ≡ (ok j, db')
    → Filed a assignment customer capture db db' j
convert_inv a center assignment customer capture db db' {j} fresh e =
    let dto = job_for a center customer capture in
    split_run (resolve_vehicle_record a capture)
      (λ v. resolve_assignment a assignment >>= λ chosen. create (dto v chosen) >>= finish a) e
      λ v d2 resolved rest.
        let (jobs, appointments, grows, users) =
          resolve_vehicle_record_frame a capture db d2 resolved in
        split_run (resolve_assignment a assignment) (λ chosen. create (dto v chosen) >>= finish a)
          rest
          λ chosen d3 assigned rest'.
            let (chose, works, same) = resolve_assignment_inv a assignment d2 d3 assigned in
            let fresh' = subst FreshJobs (sym same) (FreshJobs-resolve db d2 jobs grows fresh) in
            let (number, made, row, updated) =
              create-finish_inv a (dto v chosen) d3 db' fresh' rest' in
            record {
              chosen = chosen;
              was_chosen = chose;
              on_line =
                  ap (λ us. any (λ m. m.0 == chosen.line_id && m.1 == chosen.assigned_user_id) us)
                    (sym users)
                  ∙ works;
              of_appointment = ap (λ q. q.appointment_id) made;
              of_customer = ap (λ q. q.customer_id) made;
              of_capture = ap (λ q. q.anpr_capture_id) made;
              of_line = ap (λ q. q.line_id) made;
              of_nobody = ap (λ q. q.assigned_user_id) made;
              is_row = row;
              updated =
                  updated
                  ∙ ap
                      (λ rows.
                        update_first (λ q. q.id == a.id)
                          (λ _. record a { status = AppointmentStatus.converted }) rows)
                      (ap (λ d. d.appointments) same ∙ appointments);
            }

refound :
    (id : ℕ) (a : Appointment) (db : Db)
    → active_appointment id db ≡ some a
    → find
        (λ q. q.id == id && not q.is_deleted)
        (update_first
          (λ q. q.id == a.id)
          (λ _. record a { status = AppointmentStatus.converted })
          db.appointments)
      ≡ some (record a { status = AppointmentStatus.converted })
refound id a db active =
    let passes = find_passes (λ q. q.id == id && not q.is_deleted) db.appointments active in
    find-update_first_const (λ q. q.id == id && not q.is_deleted) (λ q. q.id == a.id)
      (record a { status = AppointmentStatus.converted }) (λ q h. ground arith) passes
      db.appointments active

-- If the next id is larger than the id of every job, a conversion that succeeds had an active
-- appointment that was not converted and not expired and had a customer, a capture, a validated ROP
-- verification, a chassis number and a payment, and an assignment to a user of the assigned line; the
-- job it returns is an active row with that appointment, customer, capture and line and with no
-- assigned user; and the appointment is found again, unchanged but for the status, which is converted.
pub create_from_appointment-Filed :
    (id : ℕ) (center : Option ℕ) (assignment : Option Assignment) (now : ℕ) (db db' : Db) (j : Job)
    → FreshJobs db
    → create_from_appointment id center assignment now db ≡ (ok j, db')
    → (a : Appointment) × (customer : ℕ) × (capture : AnprCapture) × (active_appointment id db
        ≡ some a)
      × Ready a now db customer capture
      × Filed a assignment customer capture db db' j
      × (active_appointment id db' ≡ some (record a { status = AppointmentStatus.converted }))
unfolding create_from_appointment
create_from_appointment-Filed id center assignment now db db' j fresh e =
    split_run (or_throw (active_appointment id db) (Error.not_found Resource.appointment))
      (λ a. convertible a now >>= convert a center assignment) e
      λ a d0 found rest.
        let (active, same) = or_throw_inv (active_appointment id db) _ found in
        split_run (convertible a now) (convert a center assignment) rest
          λ evidence d1 guarded rest'.
            let (ready, same') =
              convertible_inv a now d0 d1 {customer = evidence.0} {capture = evidence.1} guarded in
            let filed =
              convert_inv a center assignment evidence.0 evidence.1 db db' fresh
                (ap (convert a center assignment evidence) (sym (same' ∙ same)) ∙ rest') in
            (
              a,
              evidence.0,
              evidence.1,
              active,
              subst (λ d. Ready a now d evidence.0 evidence.1) same ready,
              filed,
              ap (find (λ q. q.id == id && not q.is_deleted)) filed.updated
                  ∙ refound id a db active,
            )

-- An appointment that was converted is not converted again: whatever centre, assignment and time the
-- second call is made with, it is refused as already converted and changes nothing.
pub create_from_appointment-once :
    (id : ℕ) (center center' : Option ℕ) (assignment assignment' : Option Assignment) (now now' : ℕ)
    (db db' : Db) (j : Job)
    → FreshJobs db
    → create_from_appointment id center assignment now db ≡ (ok j, db')
    → create_from_appointment id center' assignment' now' db'
      ≡ (err (Error.bad_request Reason.already_converted), db')
unfolding create_from_appointment convertible
create_from_appointment-once id center center' assignment assignment' now now' db db' j fresh e =
    let (a, _, _, _, _, _, again) =
      create_from_appointment-Filed id center assignment now db db' j fresh e in
    bind_ok (or_throw (active_appointment id db') (Error.not_found Resource.appointment))
      (λ a. convertible a now' >>= convert a center' assignment') (or_throw_ok _ again)
