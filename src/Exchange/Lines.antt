-- ===== src/Exchange/Lines.antt =====
-- How the reader of common/shared/files/ini-parser.util.ts takes a text apart into lines, and what it
-- does with the forms of line that the generators write.
use ivis_backend.Base.{
  text, ℕ, ◌==◌, Bool, true, false, ◌&&◌, ◌||◌, not, none, some, List, [], ◌∷◌, ◌++◌, Text, text_eq,
  text_eq→eq, trim, is_space, any, drop_end, drop_end_solid, drop_spaces_other, trim-drop_end,
  trim-drop_end_idem, ◌≡◌, refl, ap, ◌∙◌, arith,
}
use ivis_backend.Exchange.Ini.{
  Ini, Reader, split_lines, ends_line, before_bracket, if_section, section_match, cut_at_equals,
  open_section, put_entry, put_in, is_index, is_inherited, read_line,
}

-- `lines.join('\r\n')`
abbrev pub join_lines : List Text → Text
join_lines [] = []
join_lines (line ∷ []) = line
join_lines (line ∷ next ∷ lines) = line ++ 13 ∷ 10 ∷ join_lines (next ∷ lines)

abbrev pub is_one_line : Text → Bool
is_one_line s = not (any (λ c. c == 10) s)

abbrev pub are_one_line : List Text → Bool
are_one_line [] = true
are_one_line (line ∷ lines) = is_one_line line && are_one_line lines

split_lines_front :
    (line rest : Text)
    → is_one_line line ≡ true
    → split_lines (line ++ 13 ∷ 10 ∷ rest) ≡ line ∷ split_lines rest
unfolding split_lines
split_lines_front [] rest h = refl
split_lines_front (c ∷ []) rest h = ground arith
split_lines_front (c ∷ d ∷ line) rest h = ground (arith, split_lines_front (d ∷ line) rest)

split_lines_one : (line : Text) → is_one_line line ≡ true → split_lines line ≡ line ∷ []
unfolding split_lines
split_lines_one [] h = refl
split_lines_one (c ∷ []) h = ground arith
split_lines_one (c ∷ d ∷ line) h = ground (arith, split_lines_one (d ∷ line))

-- Lines without a line feed come back as they were joined.
pub split_lines-join_lines :
    (line : Text) (lines : List Text)
    → are_one_line (line ∷ lines) ≡ true
    → split_lines (join_lines (line ∷ lines)) ≡ line ∷ lines
split_lines-join_lines line [] h = split_lines_one line (ground arith)
split_lines-join_lines line (next ∷ lines) h =
    split_lines_front line (join_lines (next ∷ lines)) (ground arith)
    ∙ ap (λ x. line ∷ x) (split_lines-join_lines next lines (ground arith))

-- A key as the generators write them, that JavaScript takes as a plain one: no array index and not
-- `__proto__`.
abbrev pub is_plain_key : Text → Bool
is_plain_key [] = false
is_plain_key (c ∷ k) =
    not (is_space c || (c == 59 || (c == 35 || c == 91)))
    && (not (any (λ d. d == 61) (c ∷ k))
        && (is_one_line (c ∷ k)
            && (text_eq (trim (c ∷ k)) (c ∷ k)
                && (not (is_index (c ∷ k)) && not (text_eq (c ∷ k) (text "__proto__"))))))

cut_at_equals_plain :
    (k v : Text) → any (λ d. d == 61) k ≡ false → cut_at_equals (k ++ 61 ∷ v) ≡ some (k, v)
unfolding cut_at_equals
cut_at_equals_plain [] v h = refl
cut_at_equals_plain (c ∷ k) v h = ground (arith, cut_at_equals_plain k v)

is_space_equals : is_space 61 ≡ false
unfolding is_space
is_space_equals = refl

trim_entry : (k v : Text) → is_plain_key k ≡ true → trim (k ++ 61 ∷ v) ≡ k ++ 61 ∷ drop_end v
trim_entry [] v h = absurd cc
trim_entry (c ∷ k) v h =
    trim-drop_end (c ∷ k ++ 61 ∷ v)
    ∙ ap (λ t. drop_end t) (drop_spaces_other c (k ++ 61 ∷ v) (ground arith))
    ∙ drop_end_solid (c ∷ k) 61 v is_space_equals

section_match_other : (c : ℕ) (s : Text) → (c == 91) ≡ false → section_match (c ∷ s) ≡ none
unfolding section_match
section_match_other c s h = rw (h, section_match)

read_entry :
    (r : Reader) (k v : Text)
    → is_plain_key k ≡ true
    → read_line r (k ++ 61 ∷ v) ≡ put_entry r (k, v)
unfolding read_line
read_entry r [] v h = absurd cc
read_entry r (c ∷ k) v h =
    ground (arith, section_match_other c (k ++ 61 ∷ v), cut_at_equals_plain (c ∷ k) v)

trim_key : (k : Text) → is_plain_key k ≡ true → trim k ≡ k
trim_key [] h = absurd cc
trim_key (c ∷ k) h = text_eq→eq (trim (c ∷ k)) (c ∷ k) (ground arith)

-- `${key}=${value}`
abbrev pub entry_line : Text × Text → Text
entry_line (key, value) = key ++ 61 ∷ value

-- `read_line-entry_line`'s result.
abbrev pub with_entry : Reader → Text → Text → Reader
with_entry (current, result) k v = (current, put_in current k v result)

-- The line of an entry puts the key with the trimmed value.
pub read_line-entry_line :
    (r : Reader) (k v : Text)
    → is_plain_key k ≡ true
    → read_line r (trim (entry_line (k, v))) ≡ with_entry r k (trim v)
read_line-entry_line r k v h =
    ap (read_line r) (trim_entry k v h)
    ∙ read_entry r k (drop_end v) h
    ∙ cc (trim_key k h, trim-drop_end_idem v)

-- A section's name as the generators write it: no array index and no name that every object inherits.
abbrev pub is_plain_name : Text → Bool
is_plain_name [] = false
is_plain_name (c ∷ n) =
    not (any ends_line (c ∷ n))
    && (text_eq (trim (c ∷ n)) (c ∷ n) && (not (is_index (c ∷ n)) && not (is_inherited (c ∷ n))))

-- `[${name}]`
abbrev pub header_line : Text → Text
header_line name = 91 ∷ name ++ 93 ∷ []

before_bracket-append : (s : Text) → before_bracket (s ++ 93 ∷ []) ≡ some s
unfolding before_bracket
before_bracket-append [] = refl
before_bracket-append (c ∷ []) = refl
before_bracket-append (c ∷ d ∷ s) = ground (arith, before_bracket-append (d ∷ s))

is_space_brackets : (is_space 91 ≡ false) × (is_space 93 ≡ false)
unfolding is_space
is_space_brackets = (refl, refl)

trim-header_line : (name : Text) → trim (header_line name) ≡ header_line name
unfolding drop_end
trim-header_line name =
    trim-drop_end (header_line name)
    ∙ ap (λ t. drop_end t) (drop_spaces_other 91 (name ++ 93 ∷ []) is_space_brackets.0)
    ∙ drop_end_solid (91 ∷ name) 93 [] is_space_brackets.1

if_section_plain : (name : Text) → is_plain_name name ≡ true → if_section (some name) ≡ some name
if_section_plain [] h = absurd cc
if_section_plain (c ∷ n) h = ground arith

section_match-header_line :
    (name : Text) → is_plain_name name ≡ true → section_match (header_line name) ≡ some name
unfolding section_match
section_match-header_line name h =
    ap if_section (before_bracket-append name) ∙ if_section_plain name h

trim_name : (name : Text) → is_plain_name name ≡ true → trim name ≡ name
trim_name [] h = absurd cc
trim_name (c ∷ n) h = text_eq→eq (trim (c ∷ n)) (c ∷ n) (ground arith)

-- The line of a section opens it.
pub read_line-header_line :
    (current name : Text) (result : Ini)
    → is_plain_name name ≡ true
    → read_line (current, result) (trim (header_line name)) ≡ open_section name result
unfolding read_line
read_line-header_line current name result h =
    ap (read_line (current, result)) (trim-header_line name)
    ∙ ground (arith, section_match-header_line name h)
    ∙ ap (λ n. open_section n result) (trim_name name h)
