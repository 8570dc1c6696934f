-- ===== src/Ingest/Bookings.antt =====
-- The raw rows: `upsertBooking`, `withdrawMissing`, `toInstant` and the days of the window.
use ivis_backend.Base.{
  ℕ, ◌+◌, ◌*◌, ◌==◌, suc, Bool, false, ◌&&◌, not, Option, none, some, List, [], ◌∷◌, ◌++◌, keep,
  map, any, Text, text, text_eq, if◌then◌else◌,
}
use ivis_backend.Store.Entities.{ProviderBooking, AppointmentBooking, Db}
use ivis_backend.Submission.Filing.{Centre}
use ivis_backend.Exchange.Names.{is_digit}
use ivis_backend.Ingest.Dao.{
  find_by_booking_id, find_by_centre_and_date, mark_withdrawn, save_booking,
}

-- What the platform does: `new Date(text)` as an instant in milliseconds, the calendar day of an instant
-- in Asia/Muscat as YYYY-MM-DD, and `Number(text)` of a fee in ten-thousandths of a rial.
-- The dates of the provider are taken as valid: an invalid one would fail when the row is saved.
pub record Formats : Type 0 where
  pub parse_date : Text → ℕ
  pub oman_date : ℕ → Text
  pub amount_of : Text → ℕ

-- `/^\d{2}:\d{2}$/.test(time)`
abbrev pub is_wall_clock : Text → Bool
is_wall_clock (a ∷ b ∷ c ∷ d ∷ e ∷ []) =
    is_digit a && (is_digit b && (c == b':' && (is_digit d && is_digit e)))
is_wall_clock _ = false

abbrev pub wall_of : Option Text → Text
wall_of none = text "00:00"
wall_of (some t) = if is_wall_clock t then t else text "00:00"

unfoldable pub to_instant : Formats → Text → Option Text → ℕ
to_instant f date time = f.parse_date (date ++ text "T" ++ wall_of time ++ text ":00+04:00")

abbrev pub day_in_oman : Formats → ℕ → ℕ → Text
day_in_oman f now offset = f.oman_date (now + offset * 86400000)

abbrev pub refreshed : ProviderBooking → ℕ → AppointmentBooking → AppointmentBooking
refreshed booking now existing = record existing {
  provider_status = booking.status;
  payload = booking;
  booking_date = booking.appointment_date;
  booking_time = booking.appointment_time;
  last_seen_at = now;
  is_withdrawn = false;
}

abbrev pub new_booking : Centre → Text → ProviderBooking → ℕ → ℕ → AppointmentBooking
new_booking centre branch booking now id = record {
  id = id;
  booking_id = booking.booking_id;
  centre_id = centre.id;
  provider_branch_code = branch;
  booking_date = booking.appointment_date;
  booking_time = booking.appointment_time;
  plate_number = booking.plate_number;
  plate_type = booking.plate_type;
  provider_status = booking.status;
  payload = booking;
  appointment_id = none;
  is_withdrawn = false;
  first_seen_at = now;
  last_seen_at = now;
}

unfoldable pub upsert_booking : Centre → Text → ℕ → ProviderBooking → Db → Db
upsert_booking centre branch now booking db = elim (find_by_booking_id booking.booking_id db) [
  | some existing ↦ save_booking (refreshed booking now existing) db
  | none ↦ record db {
    next_id = suc db.next_id;
    bookings = db.bookings ++ new_booking centre branch booking now db.next_id ∷ [];
  }
]

-- The loop over the answer.
unfoldable pub upsert_bookings : Centre → Text → ℕ → List ProviderBooking → Db → Db
unfolding upsert_booking
upsert_bookings centre branch now [] db = db
upsert_bookings centre branch now (b ∷ bookings) db =
    upsert_bookings centre branch now bookings (upsert_booking centre branch now b db)

abbrev pub seen_ids : List ProviderBooking → List Text
seen_ids = map (λ b. b.booking_id)

abbrev pub is_gone : List Text → AppointmentBooking → Bool
is_gone seen b = not b.is_withdrawn && not (any (λ id. text_eq id b.booking_id) seen)

unfoldable pub withdraw_missing : ℕ → Text → List Text → Db → Db
unfolding mark_withdrawn
withdraw_missing centre day seen db =
    mark_withdrawn (map (λ b. b.id) (keep (is_gone seen) (find_by_centre_and_date centre day db)))
      db
