-- ===== src/Arrival/Paired.antt =====
-- Which appointments an arriving capture may touch, and how.
use ivis_backend.Base.{
  ℕ, ◌==◌, ◌≤◌, Bool, true, ◌&&◌, not, Option, none, some, List, [], ◌∷◌, or_else, or_else-cases,
  tally, find_passes, find_unique, Memᴰ-find, first-sort_by-keep, Text, ◌≡◌, ◌⊎◌, refl, sym, ap,
  ◌∙◌, arith, Option-cases, inl, inr, if-cases, RowByRow, RowByRow-refl, RowByRow-update_first,
}
use mathlib.Core.List.{Memᴰ}
use ivis_backend.Store.Entities.{Appointment, Db}
use ivis_backend.Submission.Filing.{Line}
use ivis_backend.Outbox.Dispatcher.{is_same_oman_day}
use ivis_backend.Ingest.Dao.{find_last}
use ivis_backend.Ingest.Reconcile.{patch_appointment}
use ivis_backend.Arrival.Lanes.{Capture, active_line, centre_of_line}
use ivis_backend.Arrival.Unattended.{shows_capture, find_by_anpr_capture_id}
use ivis_backend.Arrival.Pairing.{
  awaits, is_online_match, slot_leb, find_queued_online_by_plate, is_walk_in_match,
  find_latest_queued_by_plate, Evidence, matched, repointed, repoint, attach_to, captured_at,
  match_for, attach_capture,
}

-- An appointment without the columns that an arrival fills.
abbrev pub unpaired : Appointment → Appointment
unpaired a = record a {
  anpr_capture = none;
  rop_status = none;
  line_id = none;
  centre_id = none;
  vehicle_record_id = none;
  customer_id = none;
}

-- What may become of one appointment.
pub record MayPair (capture : Capture) (a b : Appointment) : Type 0 where
  pub framed : unpaired b ≡ unpaired a
  pub touched : (b ≡ a) ⊎ ((awaits a ≡ true) ⊎ (shows_capture capture.reading.id a ≡ true))
  pub of_capture : (b.anpr_capture ≡ a.anpr_capture) ⊎ (b.anpr_capture ≡ some capture.reading)
  pub line : (a.line_id ≡ none) ⊎ (b.line_id ≡ a.line_id)
  pub centre : (a.centre_id ≡ none) ⊎ (b.centre_id ≡ a.centre_id)
  pub customer : (a.customer_id ≡ none) ⊎ (b.customer_id ≡ a.customer_id)

MayPair-refl : (capture : Capture) (a : Appointment) → MayPair capture a a
MayPair-refl capture a = record {
  framed = refl;
  touched = inl refl;
  of_capture = inl refl;
  line = inr refl;
  centre = inr refl;
  customer = inr refl;
}

-- `a ?? b` keeps what is there.
or_else-kept : {A : Type 0} (a b : Option A) → (a ≡ none) ⊎ (or_else a b ≡ a)
or_else-kept none b = inl refl
or_else-kept (some x) b = inr refl

matched-MayPair :
    (capture : Capture) (centre : Option ℕ) (e : Evidence) (a : Appointment)
    → awaits a ≡ true
    → MayPair capture a (matched capture centre e a)
matched-MayPair capture centre e a waits = record {
  framed = refl;
  touched = inr (inl waits);
  of_capture = inr refl;
  line = or_else-kept a.line_id capture.line_id;
  centre = or_else-kept a.centre_id centre;
  customer = or_else-kept a.customer_id e.customer;
}

repointed-MayPair :
    (capture : Capture) (e : Evidence) (a : Appointment)
    → shows_capture capture.reading.id a ≡ true
    → MayPair capture a (repointed e a)
repointed-MayPair capture e a own = record {
  framed = refl;
  touched = inr (inr own);
  of_capture = inl refl;
  line = inr refl;
  centre = inr refl;
  customer = or_else-kept a.customer_id e.customer;
}

find_last-passes :
    {A : Type 0} (p : A → Bool) (xs : List A) {x : A}
    → find_last p xs ≡ some x
    → Memᴰ x xs × (p x ≡ true)
find_last-passes p [] e = absurd cc
find_last-passes p (y ∷ ys) {x} e = elim (Option-cases (find_last p ys)) [
  | inr (z, later) ↦
      let same : find_last p ys ≡ some x = ground (arith, later) in
      let (there, passes) = find_last-passes p ys {x = x} same in (Memᴰ.tail there, passes)
  | inl missing ↦
      let here : (y ≡ x) × (p y ≡ true) = ground (arith, missing) in
      (Memᴰ.head (sym here.0), ap p (sym here.0) ∙ here.1)
]

-- Whatever is matched awaits its vehicle.
match_for-awaits :
    (now : ℕ) (plate : Text) (centre : Option ℕ) (db : Db) {a : Appointment}
    → match_for now plate centre db ≡ some a
    → Memᴰ a db.appointments × (awaits a ≡ true)
match_for-awaits now plate centre db {a} e =
    elim (or_else-cases (find_queued_online_by_plate now plate centre db)
      (find_latest_queued_by_plate now plate db) e) [
        | inl online ↦
            let (there, passes) =
              first-sort_by-keep slot_leb (is_online_match now plate centre) db.appointments
                online in
            (there, ground arith)
        | inr walk_in ↦
            let (there, passes) =
              find_last-passes (is_walk_in_match now plate db.vehicle_records) db.appointments
                walk_in in
            (there, ground arith)
      ]

-- The primary key of `appointments`.
abbrev pub HasDistinctVisits : Db → Type 0
HasDistinctVisits db = (id : ℕ) → tally (λ (a : Appointment). a.id == id) db.appointments ≤ 1

-- Every row as an arrival may leave it, and no other table written.
abbrev pub Pairs : Capture → Db → Db → Type 0
Pairs capture db after =
    RowByRow (MayPair capture) db.appointments after.appointments
    × (after ≡ record db { appointments = after.appointments })

module _ (capture : Capture) (db : Db) (distinct : HasDistinctVisits db) where
  unpaired_db : Pairs capture db db
  unpaired_db = (RowByRow-refl (MayPair capture) (MayPair-refl capture) db.appointments, refl)

  patched :
      (a : Appointment) (change : Appointment → Appointment)
      → Memᴰ a db.appointments
      → MayPair capture a (change a)
      → Pairs capture db (patch_appointment a.id change db)
  patched a change there h = (
    RowByRow-update_first (MayPair capture) (MayPair-refl capture) (λ q. q.id == a.id) change
        db.appointments
        (find_unique (λ q. q.id == a.id) db.appointments there (ground arith) (distinct a.id)) h,
    refl,
  )

  repoint-Pairs :
      (e : Evidence) (o : Option Appointment)
      → find_by_anpr_capture_id capture.reading.id db ≡ o
      → Pairs capture db (repoint e o db)
  repoint-Pairs e none found = unpaired_db
  repoint-Pairs e (some a) found =
      let test = λ (q : Appointment). shows_capture capture.reading.id q && not q.is_deleted in
      let passes = find_passes test db.appointments found in
      patched a (repointed e) (Memᴰ-find test db.appointments found)
        (repointed-MayPair capture e a (ground arith))

  attach_to-Pairs :
      (now : ℕ) (plate : Text) (centre : Option ℕ) (e : Evidence) (o : Option Appointment)
      → match_for now plate centre db ≡ o
      → Pairs capture db (attach_to capture centre e o db)
  attach_to-Pairs now plate centre e none found =
      repoint-Pairs e (find_by_anpr_capture_id capture.reading.id db) refl
  attach_to-Pairs now plate centre e (some a) found =
      let (there, waits) = match_for-awaits now plate centre db found in
      patched a (matched capture centre e) there (matched-MayPair capture centre e a waits)

  -- If the ids of appointments are distinct, attaching an arrival writes no other table and touches an
  -- appointment only if it is queued, not deleted and awaits its vehicle, or carries this very capture
  -- already; it changes none of its columns but capture, ROP status, line, centre, vehicle record and
  -- customer, gives it no other capture, and never overwrites a line, a centre or a customer that is there.
  pub attach_capture-Pairs :
      (now : ℕ) (lines : List Line) (plate : Text) (e : Evidence)
      → Pairs capture db (attach_capture now lines capture plate e db)
  unfolding attach_capture
  attach_capture-Pairs now lines plate e =
      let centre = centre_of_line (active_line capture.line_id lines) in
      if-cases (Pairs capture db) (is_same_oman_day (captured_at now capture) now)
        (λ _. attach_to-Pairs now plate centre e (match_for now plate centre db) refl)
        (λ _. unpaired_db)
