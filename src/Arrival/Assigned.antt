-- ===== src/Arrival/Assigned.antt =====
-- The line and the user of an unattended conversion.
use ivis_backend.Base.{
  ℕ, ◌==◌, true, ◌&&◌, Option, none, some, List, [], ◌∷◌, any, map, Memᴰ-keep, ◌⊎◌, ◌≡◌, refl, sym,
  ap, ◌∙◌, arith, Option-cases, inl, inr,
}
use mathlib.Core.List.{Memᴰ}
use ivis_backend.Store.Entities.{Appointment, Db}
use ivis_backend.Submission.Filing.{Line}
use ivis_backend.Jobs.Conversion.{Assignment, works_on_line}
use ivis_backend.Arrival.Lanes.{
  Capture, lines_of_centre, is_free, candidates_at, candidates, first_user, assign_first,
  preferred_line, arrival_centre, resolve_auto_assignment,
}

first_user-any :
    (line : ℕ) (pairs : List (ℕ × ℕ)) {user : ℕ}
    → first_user line pairs ≡ some user
    → any (λ m. m.0 == line && m.1 == user) pairs ≡ true
first_user-any line [] e = absurd cc
first_user-any line ((l, u) ∷ pairs) {user} e =
    ground (arith, first_user-any line pairs {user = user})

-- A candidate of the list, with a user of its own.
assign_first-works :
    (lines : List ℕ) (db : Db) {r : Assignment}
    → assign_first lines db ≡ some r
    → Memᴰ r.line_id lines × (works_on_line r.assigned_user_id r.line_id db ≡ true)
assign_first-works [] db e = absurd cc
assign_first-works (line ∷ rest) db {r} e = elim (Option-cases (first_user line db.line_users)) [
  | inl missing ↦
      let (there, works) = assign_first-works rest db {r = r} (ground (arith, missing)) in
      (Memᴰ.tail there, works)
  | inr (user, found) ↦
      let chosen : r ≡ record { line_id = line; assigned_user_id = user } = ground (arith, found) in
      (
        Memᴰ.head (ap (λ (q : Assignment). q.line_id) chosen),
        ap (λ (q : Assignment). works_on_line q.assigned_user_id q.line_id db) chosen
            ∙ first_user-any line db.line_users found,
      )
]

-- An active line of the centre that no job occupies.
abbrev pub IsFreeLane : ℕ → Option ℕ → List Line → Db → Type 0
IsFreeLane line centre lines db =
    (c : ℕ) × (centre ≡ some c)
    × Memᴰ line (map (λ l. l.id) (lines_of_centre c lines))
    × (is_free db line ≡ true)

abbrev pub IsAssignable : Appointment → Capture → List Line → Db → Assignment → Type 0
IsAssignable a capture lines db r =
    ((preferred_line a capture ≡ some r.line_id)
      ⊎ ((preferred_line a capture ≡ none)
          × IsFreeLane r.line_id (arrival_centre a capture lines) lines db))
    × (works_on_line r.assigned_user_id r.line_id db ≡ true)

free_lane :
    (line : ℕ) (centre : Option ℕ) (lines : List Line) (db : Db)
    → Memᴰ line (candidates_at centre lines db)
    → IsFreeLane line centre lines db
free_lane line none lines db m = elim m [ ]
free_lane line (some c) lines db m =
    let (there, free) = Memᴰ-keep (is_free db) (map (λ l. l.id) (lines_of_centre c lines)) m in
    (c, refl, there, free)

by_preference :
    (preferred centre : Option ℕ) (lines : List Line) (db : Db) {r : Assignment}
    → assign_first (candidates preferred centre lines db) db ≡ some r
    → ((preferred ≡ some r.line_id) ⊎ ((preferred ≡ none) × IsFreeLane r.line_id centre lines db))
      × (works_on_line r.assigned_user_id r.line_id db ≡ true)
by_preference (some l) centre lines db {r} e =
    let (there, works) = assign_first-works (l ∷ []) db {r = r} e in
    (inl (ap some (only there)), works)
  where
    only : {x y : ℕ} → Memᴰ x (y ∷ []) → y ≡ x
    only (Memᴰ.head same) = sym same
    only (Memᴰ.tail m) = elim m [ ]
by_preference none centre lines db {r} e =
    let (there, works) = assign_first-works (candidates_at centre lines db) db {r = r} e in
    (inr (refl, free_lane r.line_id centre lines db there), works)

-- The line that an unattended conversion is given is the one of the appointment or of the camera, or
-- where neither is known a line of the centre on which no job is Pending or In Progress; and the user it
-- is given is one of that line's.
pub resolve_auto_assignment-IsAssignable :
    (a : Appointment) (capture : Capture) (lines : List Line) (db : Db) {r : Assignment}
    → resolve_auto_assignment a capture lines db ≡ some r
    → IsAssignable a capture lines db r
unfolding resolve_auto_assignment
resolve_auto_assignment-IsAssignable a capture lines db e =
    by_preference (preferred_line a capture) (arrival_centre a capture lines) lines db e
