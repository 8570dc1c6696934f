-- ===== src/Exchange/RoundTrip.antt =====
-- What a written file is read as.
use mathlib.Core.List.{append_assoc, append-nil}
use ivis_backend.Base.{
  false, if_false, if◌then◌else◌, Bool, true, ◌&&◌, [], ◌∷◌, ◌++◌, map, Text, text, lacks,
  are_fresh, are_fresh-append_one, are_fresh_nil, entry_get_new, trim, ◌≡◌, refl, sym, ap, ◌∙◌,
  arith, some, none, Option,
}
use ivis_backend.Exchange.Ini.{
  Ini, Section, Reader, open_section, is_index, is_inherited, property_set, read_line, read_lines,
  parse_ini, split_lines,
}
use ivis_backend.Exchange.Lines.{
  join_lines, are_one_line, split_lines-join_lines, entry_line, is_plain_name, header_line,
  read_line-header_line,
}
use ivis_backend.Exchange.Document.{
  section_lines, document_lines, trimmed, trimmed_section, are_plain, read_lines-append,
  property_set_new, read_lines-entries,
}

plain_name_parts :
    (name : Text)
    → is_plain_name name ≡ true
    → (is_index name ≡ false) × (is_inherited name ≡ false)
plain_name_parts [] h = absurd cc
plain_name_parts (c ∷ n) h = (ground arith, ground arith)

open_section_new :
    (name : Text) (result : Ini)
    → lacks name result ≡ true
    → is_plain_name name ≡ true
    → open_section name result ≡ (name, result ++ (name, []) ∷ [])
open_section_new name result new plain =
    let (no_index, own) = plain_name_parts name plain in
    ap
      (λ (o : Option Section). (
        name,
        elim o as (λ _. Ini) [
          | none ↦ if is_inherited name then result else property_set name [] result
          | some section ↦ result
        ],
      ))
      (entry_get_new name result new)
    ∙ ap (λ r. (name, r)) (if_false _ own ∙ property_set_new name [] result no_index new)

-- A section that is new to the file is read with its entries in their order.
pub read_lines-section :
    (current name : Text) (result : Ini) (entries : Section)
    → lacks name result ≡ true
    → is_plain_name name ≡ true
    → are_plain entries ≡ true
    → read_lines (current, result) (header_line name ∷ map entry_line entries)
      ≡ (name, result ++ (name, map trimmed entries) ∷ [])
unfolding read_lines
read_lines-section current name result entries new plain_name plain =
    ap (λ r. read_lines r (map entry_line entries))
      (read_line-header_line current name result plain_name
        ∙ open_section_new name result new plain_name)
    ∙ read_lines-entries name result [] entries new (are_fresh_nil entries) plain

-- Names and keys are as the generators write them, and none stands twice.
abbrev pub is_plain_document : Ini → Bool
is_plain_document [] = true
is_plain_document ((name, entries) ∷ doc) =
    is_plain_name name && (are_plain entries && (lacks name doc && is_plain_document doc))

-- A blank line is skipped.
read_line_blank : (r : Reader) → read_line r (trim []) ≡ r
unfolding read_line trim
read_line_blank r = refl

read_lines-section_lines :
    (current name : Text) (result : Ini) (entries : Section)
    → lacks name result ≡ true
    → is_plain_name name ≡ true
    → are_plain entries ≡ true
    → read_lines (current, result) (section_lines (name, entries))
      ≡ (name, result ++ (name, map trimmed entries) ∷ [])
unfolding read_lines
read_lines-section_lines current name result entries new plain_name plain =
    read_lines-append (current, result) (header_line name ∷ map entry_line entries) ([] ∷ [])
    ∙ read_line_blank (read_lines (current, result) (header_line name ∷ map entry_line entries))
    ∙ read_lines-section current name result entries new plain_name plain

read_lines-document :
    (current : Text) (result doc : Ini)
    → are_fresh result doc ≡ true
    → is_plain_document doc ≡ true
    → (read_lines (current, result) (document_lines doc)).1 ≡ result ++ map trimmed_section doc
unfolding read_lines
read_lines-document current result [] new plain = sym (append-nil result)
read_lines-document current result ((name, entries) ∷ doc) new plain =
    ap (λ r. r.1)
      (read_lines-append (current, result) (section_lines (name, entries)) (document_lines doc))
    ∙ ap (λ r. (read_lines r (document_lines doc)).1)
        (read_lines-section_lines current name result entries (ground arith) (ground arith)
          (ground arith))
    ∙ read_lines-document name (result ++ (name, map trimmed entries) ∷ []) doc
        (are_fresh-append_one name (map trimmed entries) result doc (ground arith) (ground arith))
        (ground arith)
    ∙ append_assoc result ((name, map trimmed entries) ∷ []) (map trimmed_section doc)

-- The lines of the sections, as the file holds them.
abbrev pub print_document : Ini → Text
print_document doc = join_lines (document_lines doc)

-- A file of sections whose names and keys are plain and distinct, no name being `_`, an array index or a
-- name that every object inherits and no key an array index or `__proto__`, and whose lines hold no line
-- feed, is read back section by section with its keys in their order and its values
-- trimmed, behind the empty section `_`.
pub parse_ini-print_document :
    (doc : Ini)
    → is_plain_document doc ≡ true
    → are_fresh ((text "_", []) ∷ []) doc ≡ true
    → are_one_line (document_lines doc) ≡ true
    → parse_ini (print_document doc) ≡ (text "_", []) ∷ map trimmed_section doc
unfolding parse_ini read_line read_lines split_lines trim
parse_ini-print_document [] plain fresh one_line = refl
parse_ini-print_document ((name, entries) ∷ doc) plain fresh one_line =
    ap (λ ls. (read_lines (text "_", (text "_", []) ∷ []) ls).1)
      (split_lines-join_lines (header_line name)
        ((map entry_line entries ++ [] ∷ []) ++ document_lines doc) one_line)
    ∙ read_lines-document (text "_") ((text "_", []) ∷ []) ((name, entries) ∷ doc) fresh plain
