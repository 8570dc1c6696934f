-- ===== src/Ingest/Cycle.antt =====
-- `ingestCentre`, `runWindow` and the pause. The provider's answer is a parameter: `none` is a failed
-- call.
use ivis_backend.Base.{
  ℕ, zero, suc, ◌+◌, ltb, Bool, true, false, ◌||◌, Option, none, some, List, [], ◌∷◌, Text, text,
  text_eq, if◌then◌else◌,
}
use ivis_backend.Store.Entities.{ProviderBooking, Db}
use ivis_backend.Submission.Filing.{Centre}
use ivis_backend.Ingest.Bookings.{Formats, day_in_oman, upsert_bookings, seen_ids, withdraw_missing}
use ivis_backend.Ingest.Parties.{nonblank}
use ivis_backend.Ingest.Promote.{promote_pending}
use ivis_backend.Ingest.Reconcile.{sync_promoted}

abbrev pub Answer : Type 0
Answer = Text → Option Text → Option (List ProviderBooking)

abbrev pub day_of : Formats → ℕ → Option Text → List ProviderBooking → Text
day_of f now (some date) bookings = date
day_of f now none [] = day_in_oman f now 0
day_of f now none (b ∷ bookings) = b.appointment_date

-- The four passes over an answer.
unfoldable pub take_in : Formats → ℕ → Centre → Text → Text → List ProviderBooking → Db → Db
unfolding upsert_bookings withdraw_missing promote_pending sync_promoted
take_in f now centre branch day bookings db =
    let mirrored = upsert_bookings centre branch now bookings db in
    let marked = withdraw_missing centre.id day (seen_ids bookings) mirrored in
    sync_promoted f centre.id day (promote_pending f now centre marked)

unfoldable pub ingest_centre : Formats → Answer → ℕ → Centre → Option Text → Db → Db
unfolding take_in
ingest_centre f fetch now centre date db = elim (nonblank centre.provider_branch_code) [
  | none ↦ db
  | some branch ↦ elim (fetch branch date) [
    | none ↦ db
    | some bookings ↦ take_in f now centre branch (day_of f now date bookings) bookings db
  ]
]

-- The days `from`, `from + 1`, … of one centre.
unfoldable pub ingest_days : Formats → Answer → ℕ → Centre → ℕ → ℕ → Db → Db
unfolding ingest_centre
ingest_days f fetch now centre from zero db = db
ingest_days f fetch now centre from (suc days) db =
    ingest_days f fetch now centre (from + 1) days
      (ingest_centre f fetch now centre (some (day_in_oman f now from)) db)

unfoldable pub ingest_centres : Formats → Answer → ℕ → ℕ → ℕ → List Centre → Db → Db
unfolding ingest_days
ingest_centres f fetch now from days [] db = db
ingest_centres f fetch now from days (c ∷ centres) db =
    ingest_centres f fetch now from days centres (ingest_days f fetch now c from days db)

-- The value of the pause flag, or none where there is no row; `parse` is `Date.parse`, none for NaN.
abbrev pub is_paused : (Text → Option ℕ) → ℕ → Option Text → Bool
is_paused parse now none = false
is_paused parse now (some value) =
    if text_eq value (text "infinite")
    then true
    else if text_eq value [] || text_eq value (text "false")
    then false
    else (elim (parse value) [ none ↦ false | some until ↦ ltb now until ])

-- `runWindow`, with the centres that have a branch code.
unfoldable pub run_window :
    Formats → Answer → (Text → Option ℕ) → ℕ → Bool → Option Text → ℕ → ℕ → List Centre → Db → Db
unfolding ingest_centres
run_window f fetch parse now disabled flag from days centres db =
    if disabled || is_paused parse now flag
    then db
    else ingest_centres f fetch now from days centres db
