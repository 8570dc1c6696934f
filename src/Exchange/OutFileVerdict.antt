-- ===== src/Exchange/OutFileVerdict.antt =====
-- What the watcher reads in a file of jobs/services/outfile-generator.service.ts.
use ivis_backend.Base.{
  true, is_space, to_lower, includes, subst, are_fresh, some, [], ◌∷◌, ◌++◌, map, Text, text, trim,
  ◌≡◌, refl, sym, ap, ◌∙◌,
}
use ivis_backend.Exchange.Ini.{
  is_index, is_inherited, Ini, Verdict, parse_ini, derive_overall_result, is_result_key,
}
use ivis_backend.Exchange.Lines.{is_one_line, are_one_line}
use ivis_backend.Exchange.Document.{trimmed_section, document_lines}
use ivis_backend.Exchange.RoundTrip.{print_document, is_plain_document, parse_ini-print_document}
use ivis_backend.Exchange.Watcher.{licence_no}
use ivis_backend.Exchange.OutFile.{OutFileResult, sections, flat_results, build_content}

-- The sections and the flattened block behind them.
unfoldable pub all_sections : OutFileResult → Text → Text → Text → Ini
unfolding sections
all_sections result plate date time =
    let written = sections result plate date time in
    written ++ (text "FlatResults", flat_results written) ∷ []

build_content_printed :
    (plate : Text) (result : OutFileResult) (date time : Text)
    → build_content plate result date time ≡ print_document (all_sections result plate date time)
unfolding build_content all_sections
build_content_printed plate OutFileResult.pass date time = refl
build_content_printed plate OutFileResult.fail date time = refl

abbrev pub expected : OutFileResult → Verdict
expected OutFileResult.pass = Verdict.passed
expected OutFileResult.fail = Verdict.failed

all_sections_one_line :
    (plate : Text) (result : OutFileResult) (date time : Text)
    → is_one_line plate ≡ true
    → is_one_line date ≡ true
    → is_one_line time ≡ true
    → are_one_line (document_lines (all_sections result plate date time)) ≡ true
unfolding all_sections
all_sections_one_line plate OutFileResult.pass date time p d t = rw (p, d, t)
all_sections_one_line plate OutFileResult.fail date time p d t = rw (p, d, t)

all_sections_plain :
    (plate : Text) (result : OutFileResult) (date time : Text)
    → is_plain_document (all_sections result plate date time) ≡ true
unfolding all_sections is_space trim is_index is_inherited
all_sections_plain plate OutFileResult.pass date time = refl
all_sections_plain plate OutFileResult.fail date time = refl

all_sections_fresh :
    (plate : Text) (result : OutFileResult) (date time : Text)
    → are_fresh ((text "_", []) ∷ []) (all_sections result plate date time) ≡ true
unfolding all_sections
all_sections_fresh plate OutFileResult.pass date time = refl
all_sections_fresh plate OutFileResult.fail date time = refl

pub all_sections_read :
    (plate : Text) (result : OutFileResult) (date time : Text)
    → is_one_line plate ≡ true
    → is_one_line date ≡ true
    → is_one_line time ≡ true
    → parse_ini (build_content plate result date time)
      ≡ (text "_", []) ∷ map trimmed_section (all_sections result plate date time)
unfolding all_sections
all_sections_read plate result date time p d t =
    ap parse_ini (build_content_printed plate result date time)
    ∙ parse_ini-print_document (all_sections result plate date time)
        (all_sections_plain plate result date time) (all_sections_fresh plate result date time)
        (all_sections_one_line plate result date time p d t)

derive-all_sections :
    (plate : Text) (result : OutFileResult) (date time : Text)
    → (derive_overall_result
          ((text "_", []) ∷ map trimmed_section (all_sections result plate date time))
        ≡ some (expected result))
      × (licence_no ((text "_", []) ∷ map trimmed_section (all_sections result plate date time))
          ≡ some (trim plate))
unfolding all_sections derive_overall_result is_space trim to_lower includes is_result_key
derive-all_sections plate OutFileResult.pass date time = (refl, refl)
derive-all_sections plate OutFileResult.fail date time = (refl, refl)

-- For every plate, day and time without a line feed, the generated file is read as the verdict it was
-- generated for, and as the file of the plate, trimmed.
pub build_content-derive_overall_result :
    (plate : Text) (result : OutFileResult) (date time : Text)
    → is_one_line plate ≡ true
    → is_one_line date ≡ true
    → is_one_line time ≡ true
    → (derive_overall_result (parse_ini (build_content plate result date time))
        ≡ some (expected result))
      × (licence_no (parse_ini (build_content plate result date time)) ≡ some (trim plate))
build_content-derive_overall_result plate result date time p d t =
    subst
      (λ ini.
        (derive_overall_result ini ≡ some (expected result)) × (licence_no ini ≡ some (trim plate)))
      (sym (all_sections_read plate result date time p d t))
      (derive-all_sections plate result date time)
