-- ===== src/Sync/Kept.antt =====
-- What an upsert leaves of the rows that stand.
use mathlib.Core.List.{Memᴰ}
use ivis_backend.Base.{
  ◌||◌, text_eq, text_eq_refl, ℕ, Bool, true, false, Bool-cases, inl, inr, ◌⊎◌, Option, none, some,
  List, [], ◌∷◌, ◌++◌, find, update_first, Text, text, if◌then◌else◌, ◌≡◌, refl, sym, ap, ◌∙◌,
  subst, arith,
}
use ivis_backend.Sync.Upsert.{
  Row, SyncTable, UpsertOptions, conflict_target, is_among, is_excluded, proposed, conflicts,
  is_earlier, write_over, write_one, may_write, updated, upsert_row, upsert_with_update,
}

-- A row is as it was, or was overwritten by a newer one.
abbrev pub IsNewer : Row → Row → Type 0
IsNewer old new =
    (new ≡ old) ⊎ (is_earlier (old (text "updated_at")) (new (text "updated_at")) ≡ true)

-- The columns that no upsert may change: the id, the columns of the conflict target, those that are local
-- to this node and those that this node numbers itself.
abbrev pub IsLocal : UpsertOptions → Text → Type 0
IsLocal o c =
    (c ≡ text "id")
    ⊎ (Memᴰ c (conflict_target o) ⊎ (Memᴰ c o.local_only_columns ⊎ Memᴰ c o.local_sequence_columns))

Memᴰ-is_among : (c : Text) (columns : List Text) → Memᴰ c columns → is_among c columns ≡ true
Memᴰ-is_among c [] m = elim m [ ]
Memᴰ-is_among c (d ∷ columns) (Memᴰ.head same) =
    ap (λ b. b || is_among c columns) (ap (λ e. text_eq d e) same ∙ text_eq_refl d)
Memᴰ-is_among c (d ∷ columns) (Memᴰ.tail m) = ground (arith, Memᴰ-is_among c columns m)

IsLocal-is_excluded : (o : UpsertOptions) (c : Text) → IsLocal o c → is_excluded o c ≡ true
IsLocal-is_excluded o c (inl id) =
    let same = ap (λ e. text_eq (text "id") e) id in ground (arith, same)
IsLocal-is_excluded o c (inr (inl m)) = ground (arith, Memᴰ-is_among c (conflict_target o) m)
IsLocal-is_excluded o c (inr (inr (inl m))) = ground (arith, Memᴰ-is_among c o.local_only_columns m)
IsLocal-is_excluded o c (inr (inr (inr m))) =
    ground (arith, Memᴰ-is_among c o.local_sequence_columns m)

-- What becomes of a row that stands.
pub record Kept (o : UpsertOptions) (old new : Row) : Type 0 where
  pub local : (c : Text) → IsLocal o c → new c ≡ old c
  pub newer : o.conditional ≡ true → IsNewer old new

-- Each row of the first table stands at its place in the second, related to what it was.
abbrev pub IsExtended : (Row → Row → Type 0) → SyncTable → SyncTable → Type 0
IsExtended R [] t = Unit
IsExtended R (r ∷ old) [] = true ≡ false
IsExtended R (r ∷ old) (s ∷ new) = R r s × IsExtended R old new

Kept-refl : (o : UpsertOptions) (r : Row) → Kept o r r
Kept-refl o r = record { local = λ c h. refl; newer = λ h. inl refl }

is_earlier_trans :
    (a b c : Option ℕ) → is_earlier a b ≡ true → is_earlier b c ≡ true → is_earlier a c ≡ true
is_earlier_trans none b c h k = h
is_earlier_trans (some a) none c h k = absurd cc
is_earlier_trans (some a) (some b) none h k = k
is_earlier_trans (some a) (some b) (some c) h k = ground arith

IsNewer-trans : {a b c : Row} → IsNewer a b → IsNewer b c → IsNewer a c
IsNewer-trans (inl same) (inl same') = inl (same' ∙ same)
IsNewer-trans {a} {b} {c} (inl same) (inr later) =
    inr (subst (λ r. is_earlier (r (text "updated_at")) (c (text "updated_at")) ≡ true) same later)
IsNewer-trans {a} {b} {c} (inr later) (inl same) = inr (
    subst (λ r. is_earlier (a (text "updated_at")) (r (text "updated_at")) ≡ true) (sym same) later)
IsNewer-trans {a} {b} {c} (inr one) (inr two) = inr (
    is_earlier_trans (a (text "updated_at")) (b (text "updated_at")) (c (text "updated_at")) one
      two)

Kept-trans : {o : UpsertOptions} {a b c : Row} → Kept o a b → Kept o b c → Kept o a c
Kept-trans f g = record {
  local = λ c h. g.local c h ∙ f.local c h;
  newer = λ h. IsNewer-trans (f.newer h) (g.newer h);
}

module _ (R : Row → Row → Type 0) where
  IsExtended-refl : ((r : Row) → R r r) → (t : SyncTable) → IsExtended R t t
  IsExtended-refl same [] = tt
  IsExtended-refl same (r ∷ t) = (same r, IsExtended-refl same t)

  IsExtended-append : ((r : Row) → R r r) → (t : SyncTable) (r : Row) → IsExtended R t (t ++ r ∷ [])
  IsExtended-append same [] r = tt
  IsExtended-append same (s ∷ t) r = (same s, IsExtended-append same t r)

  IsExtended-trans :
      ((a b c : Row) → R a b → R b c → R a c)
      → (s t u : SyncTable) → IsExtended R s t
      → IsExtended R t u
      → IsExtended R s u
  IsExtended-trans trans [] t u h k = tt
  IsExtended-trans trans (a ∷ s) [] u h k = absurd cc
  IsExtended-trans trans (a ∷ s) (b ∷ t) [] h k = k
  IsExtended-trans trans (a ∷ s) (b ∷ t) (c ∷ u) h k =
      (trans a b c h.0 k.0, IsExtended-trans trans s t u h.1 k.1)

  -- Where only the row that is found is changed.
  IsExtended-update :
      ((r : Row) → R r r)
      → (p : Row → Bool) (f : Row → Row) (t : SyncTable) {old : Row} → find p t ≡ some old
      → R old (f old)
      → IsExtended R t (update_first p f t)
  IsExtended-update same p f [] e h = tt
  IsExtended-update same p f (r ∷ t) {old} e h = elim (Bool-cases (p r)) [
    | inl here ↦
        let this : r ≡ old = ground arith in
        rw (here, update_first) (subst (λ s. R s (f s)) (sym this) h, IsExtended-refl same t)
    | inr later ↦ rw (later, update_first) (same r, IsExtended-update same p f t (ground arith) h)
  ]

Kept-updated :
    (o : UpsertOptions) (new old : Row)
    → is_excluded o (text "updated_at") ≡ false
    → may_write o new old ≡ true
    → Kept o old (updated o new old)
unfolding updated
Kept-updated o new old free may = record {
  local = λ c h. ap (λ b. if b then old c else new c) (IsLocal-is_excluded o c h);
  newer = λ h. inr (
      ap
        (λ b.
          is_earlier (old (text "updated_at"))
            (if b then old (text "updated_at") else new (text "updated_at")))
        free
      ∙ sym (
          ap
            (λ b.
              if b then is_earlier (old (text "updated_at")) (new (text "updated_at")) else true)
            h)
      ∙ may);
}

write_one-IsExtended :
    (o : UpsertOptions) (new : Row) (t : SyncTable)
    → is_excluded o (text "updated_at") ≡ false
    → (found : Option Row) → find (conflicts o new) t ≡ found
    → IsExtended (Kept o) t (write_one o new t found).1
write_one-IsExtended o new t free none e = IsExtended-append (Kept o) (Kept-refl o) t new
write_one-IsExtended o new t free (some old) e = go (may_write o new old) refl
  where
    go : (b : Bool) → may_write o new old ≡ b → IsExtended (Kept o) t (write_over o new old t b).1
    go true may =
        IsExtended-update (Kept o) (Kept-refl o) (conflicts o new) (updated o new) t {old = old} e
          (Kept-updated o new old free may)
    go false stale = IsExtended-refl (Kept o) (Kept-refl o) t

upsert_row-IsExtended :
    (o : UpsertOptions) (incoming : Row) (t : SyncTable)
    → is_excluded o (text "updated_at") ≡ false
    → IsExtended (Kept o) t (upsert_row o incoming t).1
unfolding upsert_row
upsert_row-IsExtended o incoming t free =
    let new = proposed o t incoming in
    write_one-IsExtended o new t free (find (conflicts o new) t) refl

-- Whatever rows are upserted into a table whose `updated_at` may be written: every row that stood still
-- stands at its place with its id, its conflict columns, its local columns and its local numbers, and if
-- the upsert is conditional, it was changed only to rows with a later `updated_at`.
pub upsert_with_update-IsExtended :
    (o : UpsertOptions) (rows : List Row) (t : SyncTable)
    → is_excluded o (text "updated_at") ≡ false
    → IsExtended (Kept o) t (upsert_with_update o rows t).1
unfolding upsert_with_update
upsert_with_update-IsExtended o [] t free = IsExtended-refl (Kept o) (Kept-refl o) t
upsert_with_update-IsExtended o (r ∷ rows) t free =
    IsExtended-trans (Kept o) (λ a b c. Kept-trans) t (upsert_row o r t).1
      (upsert_with_update o rows (upsert_row o r t).1).1 (upsert_row-IsExtended o r t free)
      (upsert_with_update-IsExtended o rows (upsert_row o r t).1 free)
