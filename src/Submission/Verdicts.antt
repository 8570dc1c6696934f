-- ===== src/Submission/Verdicts.antt =====
-- What the provider and ROP are told of a job.
use ivis_backend.Base.{
  trim, [], Option, none, some, Text, text, text_eq→eq, ◌≡◌, ◌≢◌, ◌↔◌, refl, sym, ap, ◌∙◌, arith,
  subst,
}
use ivis_backend.Store.Entities.{Job, Db}
use ivis_backend.Outbox.Row.{EventType}
use ivis_backend.Outbox.Service.{EnqueueInput}
use ivis_backend.Exchange.Ini.{Ini}
use ivis_backend.Exchange.Watcher.{filled, filled_trim}
use ivis_backend.Submission.Mapper.{
  InspectionResultPayload, ProviderVerdict, provider_verdict, build_inspection_result_payload,
}
use ivis_backend.Submission.Filing.{
  Directory, Centre, BookedAppointment, centre_by, appointment_by, payload_of, addressed,
  result_event, ◌>>=◌,
}

provider_verdict-approved :
    (o : Option Text) → provider_verdict o ≡ ProviderVerdict.approved → o ≡ some (text "Passed")
provider_verdict-approved none e = absurd cc
provider_verdict-approved (some result) e =
    ap (λ t. some t) (text_eq→eq result (text "Passed") (ground arith))

verdict_built :
    (d : Directory) (db : Db) (job : Job) (a : BookedAppointment) (booking_id : Text)
    (sections : Ini)
    → (payload_of d db job a booking_id sections).overall_result
      ≡ provider_verdict job.overall_result
unfolding build_inspection_result_payload
verdict_built d db job a booking_id sections = refl

-- The job's appointment is a booking of the provider, with an id that is not blank.
abbrev pub IsBooked : Directory → Job → Type 0
IsBooked d job =
    (a : BookedAppointment) × (appointment_by job.appointment_id d ≡ some a)
    × (s : Text) × (a.provider_booking_id ≡ some s)
    × (trim s ≢ [])

filled_trim-some :
    (o : Option Text) {b : Text}
    → filled_trim o ≡ some b
    → (s : Text) × (o ≡ some s) × (trim s ≢ [])
filled_trim-some none e = absurd cc
filled_trim-some (some s) e =
    (s, refl, λ blank. let gone = ap (λ t. filled (some t)) blank in absurd cc)

module _ (encode : InspectionResultPayload → Text) where
  -- What is known of the event that is filed for a job.
  pub record Files (d : Directory) (job : Job) (input : EnqueueInput) : Type 0 where
    pub payload : InspectionResultPayload
    pub is_result : input.event_type ≡ EventType.inspection_result
    pub of_job : input.job_id ≡ some job.id
    pub encoded : input.payload ≡ encode payload
    pub judged : payload.overall_result ≡ provider_verdict job.overall_result
    pub booked : IsBooked d job
    pub tested : (sections : Ini) × (job.test_results ≡ some sections)

  Files-filled :
      (d : Directory) (job : Job) (input event : EnqueueInput) (plate : Option Text)
      → Files d job event
      → (plate >>= λ _. some event) ≡ some input
      → Files d job input
  Files-filled d job input event none f e = absurd cc
  Files-filled d job input event (some plate) f e =
      let same : event ≡ input = ground arith in subst (Files d job) same f

  Files-branch :
      (d : Directory) (job : Job) (input : EnqueueInput) (payload : InspectionResultPayload)
      (branch : Option Text)
      → payload.overall_result ≡ provider_verdict job.overall_result
      → IsBooked d job
      → (sections : Ini) × (job.test_results ≡ some sections)
      → (branch >>= λ code. addressed encode job code payload) ≡ some input
      → Files d job input
  Files-branch d job input payload none judged booked tested e = absurd cc
  Files-branch d job input payload (some code) judged booked tested e =
      Files-filled d job input
        (record {
          event_type = EventType.inspection_result;
          branch_code = code;
          payload = encode payload;
          job_id = some job.id;
          centre_id = job.centre_id;
          line_id = job.line_id;
        })
        (filled (some payload.plate_number))
        (record {
          payload = payload;
          is_result = refl;
          of_job = refl;
          encoded = refl;
          judged = judged;
          booked = booked;
          tested = tested;
        })
        e

  Files-centre :
      (d : Directory) (job : Job) (input : EnqueueInput) (payload : InspectionResultPayload)
      (centre : Option Centre)
      → payload.overall_result ≡ provider_verdict job.overall_result
      → IsBooked d job
      → (sections : Ini) × (job.test_results ≡ some sections)
      → (centre >>= λ c.
          filled_trim c.provider_branch_code >>= λ code. addressed encode job code payload)
        ≡ some input
      → Files d job input
  Files-centre d job input payload none judged booked tested e = absurd cc
  Files-centre d job input payload (some c) judged booked tested e =
      Files-branch d job input payload (filled_trim c.provider_branch_code) judged booked tested e

  -- The steps from the sections on.
  abbrev from_sections : Directory → Db → Job → BookedAppointment → Text → Ini → Option EnqueueInput
  from_sections d db job a booking_id sections = do
    centre ← centre_by job.centre_id d
    branch ← filled_trim centre.provider_branch_code
    addressed encode job branch (payload_of d db job a booking_id sections)

  Files-sections :
      (d : Directory) (db : Db) (job : Job) (input : EnqueueInput) (a : BookedAppointment)
      (booking_id : Text)
      → IsBooked d job
      → (sections : Option Ini) → job.test_results ≡ sections
      → (sections >>= from_sections d db job a booking_id) ≡ some input
      → Files d job input
  Files-sections d db job input a booking_id booked none read e = absurd cc
  Files-sections d db job input a booking_id booked (some sections) read e =
      Files-centre d job input (payload_of d db job a booking_id sections)
        (centre_by job.centre_id d) (verdict_built d db job a booking_id sections) booked
        (sections, read) e

  Files-booking :
      (d : Directory) (db : Db) (job : Job) (input : EnqueueInput) (a : BookedAppointment)
      → appointment_by job.appointment_id d ≡ some a
      → (booking : Option Text) → filled_trim a.provider_booking_id ≡ booking
      → (booking >>= λ b. job.test_results >>= from_sections d db job a b) ≡ some input
      → Files d job input
  Files-booking d db job input a there none own e = absurd cc
  Files-booking d db job input a there (some b) own e =
      let (s, given, full) = filled_trim-some a.provider_booking_id own in
      let booked : IsBooked d job = (a, there, s, given, full) in
      Files-sections d db job input a b booked job.test_results refl e

  Files-appointment :
      (d : Directory) (db : Db) (job : Job) (input : EnqueueInput)
      → (o : Option BookedAppointment) → appointment_by job.appointment_id d ≡ o
      → (o >>= λ a. filled_trim a.provider_booking_id >>= λ b.
          job.test_results >>= from_sections d db job a b)
        ≡ some input
      → Files d job input
  Files-appointment d db job input none there e = absurd cc
  Files-appointment d db job input (some a) there e =
      Files-booking d db job input a there (filled_trim a.provider_booking_id) refl e

  pub result_event-Files :
      (d : Directory) (db : Db) (job : Job) (input : EnqueueInput)
      → result_event encode d db job ≡ some input
      → Files d job input
  unfolding result_event
  result_event-Files d db job input e =
      Files-appointment d db job input (appointment_by job.appointment_id d) refl e

  -- An event that is filed for a job is an inspection result of this job, which has test results and an
  -- appointment with a booking id of the provider that is not blank, and the verdict in its payload is APPROVED exactly if the job's result is `Passed`.
  pub result_event-verdict :
      (d : Directory) (db : Db) (job : Job) (input : EnqueueInput)
      → result_event encode d db job ≡ some input
      → (input.event_type ≡ EventType.inspection_result)
        × (input.job_id ≡ some job.id)
        × IsBooked d job
        × (job.test_results ≢ none)
        × ((payload : InspectionResultPayload) × (input.payload ≡ encode payload)
            × ((payload.overall_result ≡ ProviderVerdict.approved)
                ↔ (job.overall_result ≡ some (text "Passed"))))
  result_event-verdict d db job input e =
      let f = result_event-Files d db job input e in
      let (sections, read) = f.tested in
      (
        f.is_result,
        f.of_job,
        f.booked,
        ground arith,
        (
          f.payload,
          f.encoded,
          (
            λ yes. provider_verdict-approved job.overall_result (sym f.judged ∙ yes),
            λ passed. f.judged ∙ ap provider_verdict passed,
          ),
        ),
      )
