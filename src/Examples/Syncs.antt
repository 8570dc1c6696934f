-- ===== src/Examples/Syncs.antt =====
-- An upsert on a concrete table.
use ivis_backend.Base.{ℕ, true, false, none, some, [], ◌∷◌, text, text_eq, if◌then◌else◌, ◌≡◌, refl}
use ivis_backend.Sync.Upsert.{
  Row, SyncTable, UpsertOptions, conflicts, proposed, updated, upsert_row, upsert_with_update,
}
use ivis_backend.Sync.Kept.{Kept, IsExtended, upsert_with_update-IsExtended}
use ivis_backend.Sync.Replay.{upsert_row-upsert_row}

abbrev row : ℕ → ℕ → ℕ → Row
row id at name c =
    if text_eq c (text "id")
    then some id
    else if text_eq c (text "updated_at")
    then some at
    else if text_eq c (text "name")
    then some name
    else none

abbrev options : UpsertOptions
options = record {
  conditional = true;
  conflict_columns = none;
  index_predicate = λ r. true;
  local_only_columns = text "secret" ∷ [];
  local_sequence_columns = [];
}

abbrev table : SyncTable
table = row 1 10 100 ∷ row 2 20 200 ∷ []

upsert_with_update-IsExtended_example :
    IsExtended
      (Kept options)
      table
      (upsert_with_update options (row 1 15 101 ∷ row 2 5 201 ∷ row 3 1 300 ∷ []) table).1
upsert_with_update-IsExtended_example =
    upsert_with_update-IsExtended options (row 1 15 101 ∷ row 2 5 201 ∷ row 3 1 300 ∷ []) table refl

upsert_row-upsert_row_example :
    upsert_row options (row 1 15 101) (upsert_row options (row 1 15 101) table).1
    ≡ (false, (upsert_row options (row 1 15 101) table).1)
unfolding conflicts
upsert_row-upsert_row_example =
    upsert_row-upsert_row options (row 1 15 101) table refl refl (λ r. refl) refl refl

abbrev two : ℕ
two = 2

-- Of three rows, the newer one and the new one are written.
two_written :
    (upsert_with_update options (row 1 15 101 ∷ row 2 5 201 ∷ row 3 1 300 ∷ []) table).0 ≡ two
unfolding upsert_with_update upsert_row conflicts proposed updated
two_written = refl
