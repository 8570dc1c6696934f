-- ===== src/Exchange/InFileReading.antt =====
-- What a reader of the INI format finds in the IN file of a job.
use mathlib.Core.List.{append_assoc, append-nil}
use ivis_backend.Base.{
  true, List, [], ◌∷◌, ◌++◌, map, is_space, or_else, any-decimal, arith, are_fresh, Text, text,
  trim, ◌≡◌, refl, sym, ap, ◌∙◌,
}
use ivis_backend.Exchange.Ini.{is_index, is_inherited, Section, parse_ini}
use ivis_backend.Exchange.Lines.{join_lines, entry_line, header_line, are_one_line}
use ivis_backend.Exchange.Document.{trimmed, document_lines}
use ivis_backend.Exchange.RoundTrip.{print_document, is_plain_document, parse_ini-print_document}
use ivis_backend.Exchange.InFile.{JobInfo, field, plate_of, rest_of, lines_of, content_of}

join_lines-last :
    (line : Text) (lines : List Text)
    → join_lines (line ∷ lines ++ [] ∷ []) ≡ join_lines (line ∷ lines) ++ 13 ∷ 10 ∷ []
join_lines-last line [] = refl
join_lines-last line (next ∷ lines) =
    ap (λ t. line ++ 13 ∷ 10 ∷ t) (join_lines-last next lines)
    ∙ sym (append_assoc line (13 ∷ 10 ∷ join_lines (next ∷ lines)) (13 ∷ 10 ∷ []))

-- A header and the joined entries, each with its line end, is the print of one section.
one_section-printed :
    (name : Text) (e : Text × Text) (es : Section)
    → header_line name ++ text "\r\n" ++ join_lines (map entry_line (e ∷ es)) ++ text "\r\n"
      ≡ print_document ((name, e ∷ es) ∷ [])
one_section-printed name e es =
    let body = join_lines (map entry_line (e ∷ es)) in
    append_assoc (header_line name ++ text "\r\n") body (text "\r\n")
    ∙ append_assoc (header_line name) (text "\r\n") (body ++ text "\r\n")
    ∙ ap (λ t. header_line name ++ 13 ∷ 10 ∷ t)
        (sym (join_lines-last (entry_line e) (map entry_line es)))
    ∙ ap (λ ls. header_line name ++ 13 ∷ 10 ∷ join_lines (entry_line e ∷ ls))
        (sym (append-nil (map entry_line es ++ [] ∷ [])))

content_of-printed :
    (job : JobInfo) → content_of job ≡ print_document ((text "GenCarInfo", lines_of job) ∷ [])
unfolding content_of
content_of-printed job =
    one_section-printed (text "GenCarInfo") (text "LicenceNo", plate_of job) (rest_of job)

lines_plain : (job : JobInfo) → is_plain_document ((text "GenCarInfo", lines_of job) ∷ []) ≡ true
unfolding lines_of is_space trim is_index is_inherited
lines_plain job = refl

lines_fresh :
    (job : JobInfo)
    → are_fresh ((text "_", []) ∷ []) ((text "GenCarInfo", lines_of job) ∷ []) ≡ true
unfolding lines_of
lines_fresh job = refl

-- The texts of a job that are copied into its IN file.
abbrev pub copied_texts : JobInfo → List Text
copied_texts job =
    plate_of job
    ∷ field (λ c. c.owner_name) job.customer
    ∷ field (λ v. v.chassis_no) job.vehicle
    ∷ field (λ v. v.vehicle_model) job.vehicle
    ∷ field (λ v. or_else v.vehicle_color v.plate_color) job.vehicle
    ∷ field (λ v. v.vehicle_make) job.vehicle
    ∷ field (λ v. v.vehicle_type) job.vehicle
    ∷ field (λ c. c.owner_phone_number) job.customer
    ∷ []

lines_one_line :
    (job : JobInfo)
    → are_one_line (copied_texts job) ≡ true
    → are_one_line (document_lines ((text "GenCarInfo", lines_of job) ∷ [])) ≡ true
unfolding lines_of
lines_one_line job h = ground (arith, any-decimal job.job_id)

-- Where no text that is copied from a job holds a line feed, the job's IN file is read as the section
-- `GenCarInfo` with every line of the file in its order and the values trimmed.
pub parse_ini-content_of :
    (job : JobInfo)
    → are_one_line (copied_texts job) ≡ true
    → parse_ini (content_of job)
      ≡ (text "_", []) ∷ (text "GenCarInfo", map trimmed (lines_of job)) ∷ []
parse_ini-content_of job h =
    ap parse_ini (content_of-printed job)
    ∙ parse_ini-print_document ((text "GenCarInfo", lines_of job) ∷ []) (lines_plain job)
        (lines_fresh job) (lines_one_line job h)
