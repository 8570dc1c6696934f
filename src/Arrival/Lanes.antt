-- ===== src/Arrival/Lanes.antt =====
-- `resolveAutoAssignment`. The lines are the active ones in their display order, and the pairs
-- `line_users` of a line stand in the order of the users' names.
use ivis_backend.Base.{
  ℕ, ◌==◌, Bool, true, false, ◌&&◌, ◌||◌, not, Option, none, some, List, [], ◌∷◌, some_is, or_else,
  find, keep, map, any, text, text_eq,
}
use ivis_backend.Store.Entities.{AnprCapture, Appointment, Job, Db}
use ivis_backend.Submission.Filing.{Line}
use ivis_backend.Jobs.Conversion.{Assignment}

-- A capture with the lane that its camera stands at.
pub record Capture : Type 0 where
  pub reading : AnprCapture
  pub line_id : Option ℕ
  pub capture_time : Option ℕ

abbrev pub active_line : Option ℕ → List Line → Option Line
active_line none lines = none
active_line (some id) lines = find (λ l. l.id == id) lines

abbrev pub centre_of_line : Option Line → Option ℕ
centre_of_line none = none
centre_of_line (some l) = l.centre_id

-- `findActiveByCentreId`
abbrev pub lines_of_centre : ℕ → List Line → List Line
lines_of_centre centre lines = keep (λ l. some_is l.centre_id centre) lines

-- `findActiveByLineId` of job.dao.ts: a job on the line is Pending or In Progress.
abbrev pub occupies : ℕ → Job → Bool
occupies line j =
    some_is j.line_id line
    && (not j.is_deleted
        && (text_eq j.status (text "Pending") || text_eq j.status (text "In Progress")))

abbrev pub is_free : Db → ℕ → Bool
is_free db line = not (any (occupies line) db.jobs)

-- The lane that the camera read, or else the free lanes of the centre.
abbrev pub candidates_at : Option ℕ → List Line → Db → List ℕ
candidates_at none lines db = []
candidates_at (some centre) lines db =
    keep (is_free db) (map (λ l. l.id) (lines_of_centre centre lines))

abbrev pub candidates : Option ℕ → Option ℕ → List Line → Db → List ℕ
candidates (some preferred) centre lines db = preferred ∷ []
candidates none centre lines db = candidates_at centre lines db

-- `findActiveByLineId` of users.dao.ts, the first of them.
abbrev pub first_user : ℕ → List (ℕ × ℕ) → Option ℕ
first_user line [] = none
first_user line (m ∷ pairs) = elim (m.0 == line) [ true ↦ some m.1 | false ↦ first_user line pairs ]

abbrev pub assign_first : List ℕ → Db → Option Assignment
assign_first [] db = none
assign_first (line ∷ rest) db = elim (first_user line db.line_users) [
  | some user ↦ some (record { line_id = line; assigned_user_id = user })
  | none ↦ assign_first rest db
]

abbrev pub preferred_line : Appointment → Capture → Option ℕ
preferred_line a capture = or_else a.line_id capture.line_id

abbrev pub arrival_centre : Appointment → Capture → List Line → Option ℕ
arrival_centre a capture lines =
    or_else a.centre_id (centre_of_line (active_line capture.line_id lines))

unfoldable pub resolve_auto_assignment : Appointment → Capture → List Line → Db → Option Assignment
resolve_auto_assignment a capture lines db =
    assign_first (candidates (preferred_line a capture) (arrival_centre a capture lines) lines db)
      db
