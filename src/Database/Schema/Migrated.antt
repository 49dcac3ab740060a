-- ===== src/Database/Schema/Migrated.antt =====
-- The start of database/db_helper.go on a new database and on one of any older version.
use longclaw.Base.{
  Bool, true, false, Option, none, some, List, [], ◌∷◌, Bytes, bytes_eq, bytes_eq→eq, bytes_eq_refl,
  if◌then◌else◌, Go, ok, ok-injective, All, ◌≡◌, refl, sym, ap, ◌∙◌, ◌⊎◌, inl, inr, Bool-cases,
}
use longclaw.Base.Dict.{Dict, load, store, load-store}
use longclaw.Database.Schema.{
  Schema, SchemaError, column_of, find, create_unless, create_table, alter_table, add_unless,
  add_column_if_missing, create_index,
}

-- The table has the column.
abbrev pub HasColumn : Schema → Bytes → Bytes → Type 0
HasColumn s table column = (column_type : Bytes) × (find table column s ≡ some column_type)

-- No column is lost or declared otherwise.
abbrev pub Extends : Schema → Schema → Type 0
Extends s s' =
    (table column column_type : Bytes)
    → find table column s ≡ some column_type
    → find table column s' ≡ some column_type

pub HasColumn-Extends :
    (s s' : Schema) (table column : Bytes)
    → Extends s s'
    → HasColumn s table column
    → HasColumn s' table column
HasColumn-Extends s s' table column h (ty, e) = (ty, h table column ty e)

find-store :
    (table other column : Bytes) (columns : Dict Bytes) (s : Schema)
    → find other column (store table columns s)
      ≡ (if bytes_eq table other then load column columns else find other column s)
unfolding find
find-store table other column columns s =
    rw (load-store table other columns s) (by_table (bytes_eq table other))
  where
    by_table :
        (b : Bool)
        → column_of column (if b then some columns else load other s)
          ≡ (if b then load column columns else column_of column (load other s))
    by_table true = refl
    by_table false = refl

-- Absurd, for the cases that cannot be.
none-ne-some {ℓ κ} : {A : Type ℓ} {P : Type κ} {o : Option A} {a : A} → o ≡ none → o ≡ some a → P
none-ne-some {A = A} {P = P} {o = o} {a = a} h h' = absurd (no (sym h ∙ h'))
  where
    no : ◌≡◌ {A = Option A} none (some a) → ⊥
    no e = cc

-- A table with new columns extends the old one if all its columns are still there.
store-Extends :
    (table : Bytes) (columns : Dict Bytes) (s : Schema)
    → ((column ty : Bytes) → find table column s ≡ some ty → load column columns ≡ some ty)
    → Extends s (store table columns s)
store-Extends table columns s h other column ty e = elim (Bool-cases (bytes_eq table other)) [
  | inl same ↦
      find-store table other column columns s
      ∙ rw same (h column ty (ap (λ t. find t column s) (bytes_eq→eq table other same) ∙ e))
  | inr different ↦ find-store table other column columns s ∙ rw different e
]

-- A column of no table.
find-none : (table column : Bytes) (s : Schema) → load table s ≡ none → find table column s ≡ none
unfolding find
find-none table column s h = ap (column_of column) h

find-some :
    (table column ty : Bytes) (s : Schema)
    → find table column s ≡ some ty
    → (columns : Dict Bytes) × (load table s ≡ some columns) × (load column columns ≡ some ty)
unfolding find
find-some table column ty s h = by_load (load table s) refl h
  where
    by_load :
        (o : Option (Dict Bytes))
        → load table s ≡ o
        → column_of column o ≡ some ty
        → (columns : Dict Bytes) × (load table s ≡ some columns) × (load column columns ≡ some ty)
    by_load none e h' = cc
    by_load (some columns) e h' = (columns, e, h')

pub create_table-Extends :
    (table : Bytes) (columns : Dict Bytes) (s : Schema) → Extends s (create_table table columns s)
unfolding create_table
create_table-Extends table columns s = by_load (load table s) refl
  where
    by_load :
        (o : Option (Dict Bytes)) → load table s ≡ o → Extends s (create_unless o table columns s)
    by_load none e =
        store-Extends table columns s (λ column ty h. none-ne-some (find-none table column s e) h)
    by_load (some old) e = λ t c ty h. h

-- A table of an older version, if it is there, has its key columns.
abbrev pub IsOldTable : Schema → Bytes → List Bytes → Type 0
IsOldTable s table keys = (load table s ≡ none) ⊎ All (HasColumn s table) keys

pub create_table-HasColumns :
    (table : Bytes) (columns : Dict Bytes) (s : Schema) (keys : List Bytes)
    → All (λ key. (ty : Bytes) × (load key columns ≡ some ty)) keys
    → IsOldTable s table keys
    → All (HasColumn (create_table table columns s) table) keys
unfolding create_table
create_table-HasColumns table columns s keys h (inl e) = rw e (created keys h)
  where
    created :
        (ks : List Bytes)
        → All (λ key. (ty : Bytes) × (load key columns ≡ some ty)) ks
        → All (HasColumn (store table columns s) table) ks
    created [] h' = tt
    created (k ∷ ks) ((ty, e'), hs) =
        ((ty, find-store table table k columns s ∙ rw (bytes_eq_refl table) e'), created ks hs)
create_table-HasColumns table columns s keys h (inr old) =
    All-map_same keys
      (λ key.
        HasColumn-Extends s (create_table table columns s) table key
          (create_table-Extends table columns s))
      old
  where
    All-map_same :
        {P Q : Bytes → Type 0} (ks : List Bytes) → ((k : Bytes) → P k → Q k) → All P ks → All Q ks
    All-map_same [] f hs = tt
    All-map_same (k ∷ ks) f (h', hs) = (f k h', All-map_same ks f hs)

-- What a step that cannot fail gives.
abbrev pub Gives : Schema → Bytes → Bytes → Go SchemaError Schema → Type 0
Gives s table column call =
    (s' : Schema) × (call ≡ ok s') × Extends s s' × HasColumn s' table column

pub add_column_if_missing-Gives :
    (table column column_type key : Bytes) (s : Schema)
    → HasColumn s table key
    → Gives s table column (add_column_if_missing table column column_type s)
unfolding add_column_if_missing
add_column_if_missing-Gives table column column_type key s (key_type, h) =
    by_find (find table column s) refl
  where
    kept :
        (columns : Dict Bytes)
        → load table s ≡ some columns
        → find table column s ≡ none
        → (other ty : Bytes) → find table other s ≡ some ty
        → load other (store column column_type columns) ≡ some ty
    kept columns e' e other ty h' = elim (Bool-cases (bytes_eq column other)) [
      | inl same ↦
          none-ne-some (ap (λ c. find table c s) (sym (bytes_eq→eq column other same)) ∙ e) h'
      | inr different ↦
          load-store column other column_type columns
          ∙ rw different (sym (unfold find in ap (column_of other) e') ∙ h')
    ]

    by_find :
        (o : Option Bytes)
        → find table column s ≡ o
        → Gives s table column (add_unless o table column column_type s)
    by_find (some old) e = (s, refl, (λ t c ty h'. h'), (old, e))
    by_find none e =
        let (columns, e', f) = find-some table key key_type s h in
        (
          store table (store column column_type columns) s,
          rw e' refl,
          store-Extends table (store column column_type columns) s (kept columns e' e),
          (
            column_type,
            find-store table table column (store column column_type columns) s
                ∙ rw
                    (
                      bytes_eq_refl table,
                      load-store column column column_type columns,
                      bytes_eq_refl column,
                    )
                    refl,
          ),
        )

alter_table-keeps :
    (o : Option (Dict Bytes)) (table column column_type other : Bytes) (s s' : Schema)
    → bytes_eq table other ≡ false
    → alter_table o table column column_type s ≡ ok s'
    → load other s' ≡ load other s
alter_table-keeps none table column column_type other s s' different h = cc
alter_table-keeps (some columns) table column column_type other s s' different h =
    ap (load other) (sym (ok-injective h))
    ∙ load-store table other (store column column_type columns) s
    ∙ rw different refl

-- The other tables are as they were.
pub add_column_if_missing-keeps :
    (table column column_type other : Bytes) (s s' : Schema)
    → bytes_eq table other ≡ false
    → add_column_if_missing table column column_type s ≡ ok s'
    → load other s' ≡ load other s
unfolding add_column_if_missing
add_column_if_missing-keeps table column column_type other s s' different =
    by_find (find table column s)
  where
    by_find :
        (o : Option Bytes)
        → add_unless o table column column_type s ≡ ok s'
        → load other s' ≡ load other s
    by_find none h =
        alter_table-keeps (load table s) table column column_type other s s' different h
    by_find (some old) h = ap (load other) (sym (ok-injective h))

pub create_table-keeps :
    (table other : Bytes) (columns : Dict Bytes) (s : Schema)
    → bytes_eq table other ≡ false
    → load other (create_table table columns s) ≡ load other s
unfolding create_table
create_table-keeps table other columns s different = by_load (load table s)
  where
    by_load :
        (o : Option (Dict Bytes)) → load other (create_unless o table columns s) ≡ load other s
    by_load none = load-store table other columns s ∙ rw different refl
    by_load (some old) = refl

-- Nothing is left to do for a column or a table that is there.
pub add_column_if_missing-same :
    (table column column_type : Bytes) (s : Schema)
    → HasColumn s table column
    → add_column_if_missing table column column_type s ≡ ok s
unfolding add_column_if_missing
add_column_if_missing-same table column column_type s (ty, e) = rw (e) refl

pub create_table-same :
    (table key : Bytes) (columns : Dict Bytes) (s : Schema)
    → HasColumn s table key
    → create_table table columns s ≡ s
unfolding create_table
create_table-same table key columns s (ty, e) =
    let (old, e', f) = find-some table key ty s e in rw e' refl

pub create_index-same :
    (table column : Bytes) (s : Schema)
    → HasColumn s table column
    → create_index table column s ≡ ok s
unfolding create_index
create_index-same table column s (ty, e) = rw e refl
