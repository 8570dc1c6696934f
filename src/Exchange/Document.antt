-- ===== src/Exchange/Document.antt =====
-- A file of sections as the generators of modules/jobs write it, read back by
-- common/shared/files/ini-parser.util.ts.
use mathlib.Core.List.{append_assoc, append-nil}
use ivis_backend.Base.{
  Option, none, some, text, text_eq, false, if_false, if◌then◌else◌, Bool, true, ◌&&◌, List, [],
  ◌∷◌, ◌++◌, map, Text, trim, lacks, are_fresh, are_fresh-append_one, entry_set, entry_set_new,
  entry_set_last, entry_get_last, ◌≡◌, refl, sym, ap, ◌∙◌, arith,
}
use ivis_backend.Exchange.Ini.{
  Ini, Section, Reader, read_line, read_lines, is_index, property_set, insert_index, text_assigned,
}
use ivis_backend.Exchange.Lines.{
  is_plain_key, entry_line, with_entry, read_line-entry_line, header_line,
}

-- `lines.push('[name]'); for (…) lines.push('key=value'); lines.push('')`
abbrev pub section_lines : Text × Section → List Text
section_lines (name, entries) = header_line name ∷ map entry_line entries ++ [] ∷ []

abbrev pub document_lines : Ini → List Text
document_lines [] = []
document_lines (s ∷ doc) = section_lines s ++ document_lines doc

-- What is read of a value.
abbrev pub trimmed : Text × Text → Text × Text
trimmed (k, v) = (k, trim v)

abbrev pub trimmed_section : Text × Section → Text × Section
trimmed_section (name, entries) = (name, map trimmed entries)

abbrev pub are_plain : Section → Bool
are_plain [] = true
are_plain ((k, v) ∷ entries) = is_plain_key k && (lacks k entries && are_plain entries)

pub read_lines-append :
    (r : Reader) (xs ys : List Text) → read_lines r (xs ++ ys) ≡ read_lines (read_lines r xs) ys
unfolding read_lines
read_lines-append r [] ys = refl
read_lines-append r (x ∷ xs) ys = read_lines-append (read_line r (trim x)) xs ys

plain_key_parts :
    (k : Text)
    → is_plain_key k ≡ true
    → (is_index k ≡ false) × (text_eq k (text "__proto__") ≡ false)
plain_key_parts [] h = absurd cc
plain_key_parts (c ∷ k) h = (ground arith, ground arith)

-- A new property that is no array index stands last.
pub property_set_new :
    {V : Type 0} (k : Text) (v : V) (o : List (Text × V))
    → is_index k ≡ false
    → lacks k o ≡ true
    → property_set k v o ≡ o ++ (k, v) ∷ []
property_set_new k v o plain new =
    ap (λ b. if b && lacks k o then insert_index k v o else entry_set k v o) plain
    ∙ entry_set_new k v o new

assigned_new :
    (k v : Text) (done : Section)
    → is_plain_key k ≡ true
    → lacks k done ≡ true
    → text_assigned k v done ≡ done ++ (k, v) ∷ []
assigned_new k v done plain new =
    let (no_index, no_proto) = plain_key_parts k plain in
    if_false _ no_proto ∙ property_set_new k v done no_index new

with_entry_last :
    (name k v : Text) (result : Ini) (done : Section)
    → lacks name result ≡ true
    → is_plain_key k ≡ true
    → lacks k done ≡ true
    → with_entry (name, result ++ (name, done) ∷ []) k v
      ≡ (name, result ++ (name, done ++ (k, v) ∷ []) ∷ [])
with_entry_last name k v result done new plain fresh =
    let whole = result ++ (name, done) ∷ [] in
    ap
      (λ (o : Option Section). (
        name,
        elim o as (λ _. Ini) [
          | none ↦ whole
          | some section ↦ entry_set name (text_assigned k v section) whole
        ],
      ))
      (entry_get_last name done result new)
    ∙ ap (λ s. (name, entry_set name s whole)) (assigned_new k v done plain fresh)
    ∙ ap (λ o. (name, o)) (entry_set_last name (done ++ (k, v) ∷ []) done result new)

-- The lines of the entries put them behind those of the last section.
pub read_lines-entries :
    (name : Text) (result : Ini) (done entries : Section)
    → lacks name result ≡ true
    → are_fresh done entries ≡ true
    → are_plain entries ≡ true
    → read_lines (name, result ++ (name, done) ∷ []) (map entry_line entries)
      ≡ (name, result ++ (name, done ++ map trimmed entries) ∷ [])
unfolding read_lines
read_lines-entries name result done [] new fresh plain =
    ap (λ s. (name, result ++ (name, s) ∷ [])) (sym (append-nil done))
read_lines-entries name result done ((k, v) ∷ entries) new fresh plain =
    ap (λ r. read_lines r (map entry_line entries))
      (read_line-entry_line (name, result ++ (name, done) ∷ []) k v (ground arith)
        ∙ with_entry_last name k (trim v) result done new (ground arith) (ground arith))
    ∙ read_lines-entries name result (done ++ (k, trim v) ∷ []) entries new
        (are_fresh-append_one k (trim v) done entries (ground arith) (ground arith)) (ground arith)
    ∙ ap (λ s. (name, result ++ (name, s) ∷ []))
        (append_assoc done ((k, trim v) ∷ []) (map trimmed entries))
