-- ===== src/Sync/Replay.antt =====
-- A row that arrives twice.
use ivis_backend.Base.{
  ℕ, ◌+◌, Bool, true, false, ◌&&◌, ◌||◌, Option, none, some, List, [], ◌∷◌, ◌++◌, all, find,
  find_passes, find-append_new, find-update_first, update_first, Text, text, text_eq, text_eq_refl,
  ◌≡◌, refl, sym, ap, ◌∙◌, arith, if◌then◌else◌,
}
use ivis_backend.Sync.Upsert.{
  Row, SyncTable, UpsertOptions, is_among, conflict_target, is_excluded, max_column, proposed,
  same_value, conflicts, is_earlier, may_write, updated, write_over, write_one, upsert_row,
}

is_earlier_irrefl : (a : Option ℕ) → is_earlier a a ≡ false
is_earlier_irrefl none = refl
is_earlier_irrefl (some a) = ground arith

or_true : (a : Bool) {b : Bool} → b ≡ true → (a || b) ≡ true
or_true true h = refl
or_true false h = h

all_same-kept :
    (f old new : Row)
    → (columns : List Text) → ((c : Text) → is_among c columns ≡ true → f c ≡ old c)
    → all (λ c. same_value (f c) (new c)) columns ≡ all (λ c. same_value (old c) (new c)) columns
all_same-kept f old new [] kept = refl
all_same-kept f old new (c ∷ columns) kept =
    let here : f c ≡ old c = kept c (ap (λ b. b || is_among c columns) (text_eq_refl c)) in
    let below : all (λ d. same_value (f d) (new d)) columns
        ≡ all (λ d. same_value (old d) (new d)) columns =
      all_same-kept f old new columns (λ d m. kept d (or_true (text_eq c d) m)) in
    ap (λ v. same_value v (new c) && all (λ d. same_value (f d) (new d)) columns) here
    ∙ ap (λ b. same_value (old c) (new c) && b) below

abbrev rest_excluded : UpsertOptions → Text → Bool
rest_excluded o c =
    text_eq (text "id") c
    || (is_among c o.local_only_columns || is_among c o.local_sequence_columns)

-- The columns of the conflict target are excluded from the update, so the row still matches.
conflicts-updated :
    (o : UpsertOptions) (new old : Row)
    → ((r : Row) → o.index_predicate r ≡ true)
    → conflicts o new (updated o new old) ≡ conflicts o new old
unfolding conflicts updated
conflicts-updated o new old full =
    ap
      (λ b.
        (o.index_predicate new && b)
        && all (λ c. same_value (updated o new old c) (new c)) (conflict_target o))
      (full (updated o new old) ∙ sym (full old))
    ∙ ap (λ b. (o.index_predicate new && o.index_predicate old) && b)
        (all_same-kept (updated o new old) old new (conflict_target o)
          (λ c m. ap (λ b. if b || rest_excluded o c then old c else new c) m))

updated-updated_at :
    (o : UpsertOptions) (new old : Row)
    → is_excluded o (text "updated_at") ≡ false
    → updated o new old (text "updated_at") ≡ new (text "updated_at")
unfolding updated
updated-updated_at o new old free =
    ap (λ b. if b then old (text "updated_at") else new (text "updated_at")) free

may_write-same :
    (o : UpsertOptions) (new old : Row)
    → o.conditional ≡ true
    → old (text "updated_at") ≡ new (text "updated_at")
    → may_write o new old ≡ false
may_write-same o new old conditional same =
    ap (λ b. if b then is_earlier (old (text "updated_at")) (new (text "updated_at")) else true)
      conditional
    ∙ ap (λ v. is_earlier v (new (text "updated_at"))) same
    ∙ is_earlier_irrefl (new (text "updated_at"))

-- The statement when it is run again on what it left.
write_one-again :
    (o : UpsertOptions) (new : Row) (t : SyncTable)
    → o.conditional ≡ true
    → ((r : Row) → o.index_predicate r ≡ true)
    → is_excluded o (text "updated_at") ≡ false
    → conflicts o new new ≡ true
    → (found : Option Row) → find (conflicts o new) t ≡ found
    → let next = (write_one o new t found).1 in
      write_one o new next (find (conflicts o new) next) ≡ (false, next)
write_one-again o new t conditional full free keyed none e =
    ap (write_one o new (t ++ new ∷ [])) (find-append_new (conflicts o new) t new e keyed)
    ∙ ap (write_over o new new (t ++ new ∷ [])) (may_write-same o new new conditional refl)
write_one-again o new t conditional full free keyed (some old) e = go (may_write o new old) refl
  where
    go :
        (b : Bool)
        → may_write o new old ≡ b
        → let next = (write_over o new old t b).1 in
          write_one o new next (find (conflicts o new) next) ≡ (false, next)
    go true may =
        let next = update_first (conflicts o new) (updated o new) t in
        ap (write_one o new next) (
          find-update_first (conflicts o new) (updated o new) t {x = old} e
            (conflicts-updated o new old full ∙ find_passes (conflicts o new) t {x = old} e))
        ∙ ap (write_over o new (updated o new old) next) (
            may_write-same o new (updated o new old) conditional
              (updated-updated_at o new old free))
    go false stale = ap (write_one o new t) e ∙ ap (write_over o new old t) stale

-- Without local numbers the incoming row is the one that is proposed.
proposed_plain :
    (o : UpsertOptions) (t : SyncTable) (incoming : Row)
    → o.local_sequence_columns ≡ []
    → proposed o t incoming ≡ incoming
unfolding proposed
proposed_plain o t incoming unnumbered =
    ap (λ columns (c : Text). if is_among c columns then some (max_column c t + 1) else incoming c)
      unnumbered

-- A row that is upserted conditionally and without local numbers, on a full index whose columns it
-- fills, and whose `updated_at` may be written, writes nothing when it arrives a second time.
pub upsert_row-upsert_row :
    (o : UpsertOptions) (incoming : Row) (t : SyncTable)
    → o.conditional ≡ true
    → o.local_sequence_columns ≡ []
    → ((r : Row) → o.index_predicate r ≡ true)
    → is_excluded o (text "updated_at") ≡ false
    → conflicts o incoming incoming ≡ true
    → upsert_row o incoming (upsert_row o incoming t).1 ≡ (false, (upsert_row o incoming t).1)
unfolding upsert_row
upsert_row-upsert_row o incoming t conditional unnumbered full free keyed =
    let step : SyncTable → Bool × SyncTable =
      λ u. write_one o incoming u (find (conflicts o incoming) u) in
    let plain : (u : SyncTable) → upsert_row o incoming u ≡ step u = λ u.
      ap (λ new. write_one o new u (find (conflicts o new) u))
        (proposed_plain o u incoming unnumbered) in
    plain (upsert_row o incoming t).1
    ∙ ap (λ r. step r.1) (plain t)
    ∙ write_one-again o incoming t conditional full free keyed (find (conflicts o incoming) t) refl
    ∙ ap (λ r. (false, r.1)) (sym (plain t))
