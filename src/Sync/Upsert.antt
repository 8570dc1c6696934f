-- ===== src/Sync/Upsert.antt =====
-- common/utils/conditional-upsert.util.ts. A row gives the value of a column by its name; null is
-- `none`, and a value is a number that stands for it, an instant for `updated_at`. What PostgreSQL does
-- with `INSERT … ON CONFLICT … DO UPDATE` is written out as its documentation says: at most one row
-- matches the conflict target. A violation of another constraint is not modelled.
use Prim.Native.Nat.{max}
use ivis_backend.Base.{
  ℕ, suc, ◌+◌, ◌==◌, ltb, Bool, true, false, ◌&&◌, ◌||◌, Option, none, some, List, [], ◌∷◌, ◌++◌,
  any, all, find, update_first, Text, text, text_eq, if◌then◌else◌,
}

abbrev pub Row : Type 0
Row = Text → Option ℕ

abbrev pub SyncTable : Type 0
SyncTable = List Row

-- `index_predicate` is the condition of a partial index, true everywhere for a full one.
pub record UpsertOptions : Type 0 where
  pub conditional : Bool
  pub conflict_columns : Option (List Text)
  pub index_predicate : Row → Bool
  pub local_only_columns : List Text
  pub local_sequence_columns : List Text

abbrev pub is_among : Text → List Text → Bool
is_among c columns = any (λ d. text_eq d c) columns

-- `options.conflictColumns ?? ['id']`
abbrev pub conflict_target : UpsertOptions → List Text
conflict_target o = elim o.conflict_columns [ none ↦ text "id" ∷ [] | some columns ↦ columns ]

-- The set `excludedFromUpdate`.
abbrev pub is_excluded : UpsertOptions → Text → Bool
is_excluded o c =
    is_among c (conflict_target o)
    || (text_eq (text "id") c
        || (is_among c o.local_only_columns || is_among c o.local_sequence_columns))

abbrev pub value_or_zero : Option ℕ → ℕ
value_or_zero none = 0
value_or_zero (some v) = v

-- `COALESCE(MAX(column), 0)`
abbrev pub max_column : Text → SyncTable → ℕ
max_column c [] = 0
max_column c (r ∷ t) = max (value_or_zero (r c)) (max_column c t)

-- The row that is proposed for insertion.
unfoldable pub proposed : UpsertOptions → SyncTable → Row → Row
proposed o t incoming c =
    if is_among c o.local_sequence_columns then some (max_column c t + 1) else incoming c

-- Two nulls are not equal.
abbrev pub same_value : Option ℕ → Option ℕ → Bool
same_value (some a) (some b) = a == b
same_value _ _ = false

unfoldable pub conflicts : UpsertOptions → Row → Row → Bool
conflicts o new old =
    (o.index_predicate new && o.index_predicate old)
    && all (λ c. same_value (old c) (new c)) (conflict_target o)

-- `table.updated_at < EXCLUDED.updated_at`
abbrev pub is_earlier : Option ℕ → Option ℕ → Bool
is_earlier (some a) (some b) = ltb a b
is_earlier _ _ = false

abbrev pub may_write : UpsertOptions → Row → Row → Bool
may_write o new old =
    if o.conditional then is_earlier (old (text "updated_at")) (new (text "updated_at")) else true

-- `DO UPDATE SET column = EXCLUDED.column` for the columns that are not excluded.
unfoldable pub updated : UpsertOptions → Row → Row → Row
updated o new old c = if is_excluded o c then old c else new c

-- The update of the row that matches the conflict target, if it may be written.
abbrev pub write_over : UpsertOptions → Row → Row → SyncTable → Bool → Bool × SyncTable
write_over o new old t true = (true, update_first (conflicts o new) (updated o new) t)
write_over o new old t false = (false, t)

-- The statement, by the row that is found: whether a row was written, and the table.
abbrev pub write_one : UpsertOptions → Row → SyncTable → Option Row → Bool × SyncTable
write_one o new t none = (true, t ++ new ∷ [])
write_one o new t (some old) = write_over o new old t (may_write o new old)

unfoldable pub upsert_row : UpsertOptions → Row → SyncTable → Bool × SyncTable
unfolding proposed conflicts updated
upsert_row o incoming t =
    let new = proposed o t incoming in write_one o new t (find (conflicts o new) t)

abbrev pub count_if : Bool → ℕ → ℕ
count_if true n = suc n
count_if false n = n

-- The loop, with the number of rows written.
unfoldable pub upsert_with_update : UpsertOptions → List Row → SyncTable → ℕ × SyncTable
unfolding upsert_row
upsert_with_update o [] t = (0, t)
upsert_with_update o (r ∷ rows) t =
    let (wrote, next) = upsert_row o r t in
    let (written, end) = upsert_with_update o rows next in (count_if wrote written, end)
