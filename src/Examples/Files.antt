-- ===== src/Examples/Files.antt =====
-- The files of an inspection on concrete data.
use ivis_backend.Base.{
  ◌++◌, false, Option, some, none, List, [], ◌∷◌, map, keep, trim, is_space, Text, text, to_upper,
  ◌≡◌, ◌≢◌, refl, arith,
}
use ivis_backend.Store.Entities.{Job}
use ivis_backend.Exchange.Ini.{is_index, is_inherited, Ini, parse_ini, derive_overall_result}
use ivis_backend.Exchange.Document.{trimmed_section}
use ivis_backend.Exchange.RoundTrip.{print_document, parse_ini-print_document}
use ivis_backend.Exchange.Names.{
  normalize_plate_for_file_name, oman_date_stamp, build_out_file_name, parse_out_file_name,
}
use ivis_backend.Exchange.NameRoundTrip.{IsIsoDate, parse-build_out_file_name}
use ivis_backend.Exchange.OutFile.{OutFileResult, build_content}
use ivis_backend.Exchange.OutFileVerdict.{expected, build_content-derive_overall_result}
use ivis_backend.Exchange.InFile.{JobInfo}
use ivis_backend.Exchange.Watcher.{Watch, licence_no, scan_folder, tick}
use ivis_backend.Exchange.Rescan.{scan_folder-scan_folder}
use ivis_backend.Exchange.Frame.{frame, is_closed, tick-frame}
use ivis_backend.Examples.Shop.{walk_in, shop}

abbrev plate : Text
plate = text "1234 A"

abbrev day : Text
day = text "17/08/2026"

abbrev time : Text
time = text "09:30 am"

abbrev two_sections : Ini
two_sections =
    (text "A", (text "x", text " 1 ") ∷ (text "y", []) ∷ [])
    ∷ (text "B", (text "z", text "a=b") ∷ [])
    ∷ []

parse_ini-print_document_example :
    parse_ini (print_document two_sections) ≡ (text "_", []) ∷ map trimmed_section two_sections
unfolding trim is_space is_index is_inherited
parse_ini-print_document_example = parse_ini-print_document two_sections refl refl refl

-- The formatter on one day.
abbrev one_day : Unit {0} → Text
one_day _ = text "2026-08-17"

abbrev one_day-IsIsoDate : IsIsoDate (one_day tt)
one_day-IsIsoDate = record {
  year = text "2026";
  month = text "08";
  day = text "17";
  parts = refl;
  are_digits = refl;
  eight = refl;
}

plate_left : normalize_plate_for_file_name plate ≢ []
unfolding normalize_plate_for_file_name to_upper
plate_left e = ground arith

parse-build_out_file_name_example :
    parse_out_file_name (build_out_file_name one_day plate tt)
    ≡ some (normalize_plate_for_file_name plate, oman_date_stamp one_day tt)
parse-build_out_file_name_example =
    parse-build_out_file_name one_day plate tt one_day-IsIsoDate plate_left

build_content-derive_overall_result_example :
    (derive_overall_result (parse_ini (build_content plate OutFileResult.fail day time))
      ≡ some (expected OutFileResult.fail))
    × (licence_no (parse_ini (build_content plate OutFileResult.fail day time)) ≡ some (trim plate))
build_content-derive_overall_result_example =
    build_content-derive_overall_result plate OutFileResult.fail day time refl refl refl

abbrev job_info : JobInfo
job_info = record {
  job_id = 7;
  customer = some (record { owner_name = some (text "Ali"); owner_phone_number = none });
  vehicle = none;
  in_file_path = none;
}

-- One job in progress and the walk-in, which is not started.
abbrev running : Job
running = record walk_in { id = 11; job_id = 2; status = text "In Progress" }

abbrev lane : Watch
lane = record { processed = []; db = record shop { jobs = walk_in ∷ running ∷ [] } }

abbrev out_name : Text
out_name = build_out_file_name one_day plate tt

abbrev content : Text
content = build_content plate OutFileResult.pass day time

abbrev read_any : Text → Option Text
read_any path = some content

abbrev join_plainly : Text → Text → Text
join_plainly dir file = dir ++ text "/" ++ file

scan_folder-scan_folder_example :
    scan_folder read_any join_plainly
      (text "out")
      (out_name ∷ text "b.txt" ∷ [])
      (scan_folder read_any join_plainly (text "out") (out_name ∷ text "b.txt" ∷ []) lane)
    ≡ scan_folder read_any join_plainly (text "out") (out_name ∷ text "b.txt" ∷ []) lane
scan_folder-scan_folder_example =
    scan_folder-scan_folder read_any join_plainly (text "out") (out_name ∷ text "b.txt" ∷ []) lane

abbrev one_file : Text → Option (List Text)
one_file dir = some (out_name ∷ [])

tick-frame_example :
    (frame (tick read_any join_plainly one_file false (some (text "out") ∷ none ∷ []) lane).db
      ≡ frame lane.db)
    × (keep is_closed
          (tick read_any join_plainly one_file false (some (text "out") ∷ none ∷ []) lane).db.jobs
        ≡ keep is_closed lane.db.jobs)
tick-frame_example =
    tick-frame read_any join_plainly one_file false (some (text "out") ∷ none ∷ []) lane
      (λ id. ground arith)
