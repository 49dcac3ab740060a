-- ===== src/Database/Schema/Columns.antt =====
-- The columns that `NewStressTestDB` and `addRefundColumns` (database/db_helper.go) add.
use longclaw.Base.{
  false, some, List, [], ◌∷◌, Bytes, codes, bytes_eq, ok, ok-injective, >>=-eq-ok, All, ◌≡◌, refl,
  sym, ap, ◌∙◌, inl, inr,
}
use longclaw.Base.Dict.{Dict, load}
use longclaw.Database.Schema.{
  Schema, create_table, add_column_if_missing, stress_test, request_response_log, scheduled_message,
  stress_test_columns, log_columns, scheduled_columns, Column, refund_columns, add_columns,
  add_refund_columns, new_stress_test_db,
}
use longclaw.Database.Schema.Migrated.{
  HasColumn, Extends, HasColumn-Extends, IsOldTable, create_table-Extends, create_table-HasColumns,
  add_column_if_missing-Gives, add_column_if_missing-keeps, create_table-keeps,
  add_column_if_missing-same, create_table-same, create_index-same,
}

abbrev pub HasColumns : Schema → List Column → Type 0
HasColumns s columns = All (λ (c : Column). HasColumn s c.table c.column) columns

pub HasColumns-Extends :
    (s s' : Schema) (columns : List Column)
    → Extends s s'
    → HasColumns s columns
    → HasColumns s' columns
HasColumns-Extends s s' [] h hs = tt
HasColumns-Extends s s' (c ∷ columns) h (h', hs) =
    (HasColumn-Extends s s' c.table c.column h h', HasColumns-Extends s s' columns h hs)

-- Every table that gets a column has an `id`.
add_columns-HasColumns :
    (columns : List Column) (s : Schema)
    → All (λ (c : Column). HasColumn s c.table (codes "id")) columns
    → (s' : Schema) × (add_columns columns s ≡ ok s') × Extends s s' × HasColumns s' columns
unfolding add_columns
add_columns-HasColumns [] s h = (s, refl, (λ t c ty e. e), tt)
add_columns-HasColumns (c ∷ columns) s (h, hs) =
    let (s1, e, x, g) =
      add_column_if_missing-Gives c.table c.column c.column_type (codes "id") s h in
    let (s2, e', x', g') = add_columns-HasColumns columns s1 (ids_after columns s1 x hs) in
    (
      s2,
      rw e e',
      (λ t c' ty i. x' t c' ty (x t c' ty i)),
      (HasColumn-Extends s1 s2 c.table c.column x' g, g'),
    )
  where
    ids_after :
        (cs : List Column) (s1 : Schema)
        → Extends s s1
        → All (λ (c : Column). HasColumn s c.table (codes "id")) cs
        → All (λ (c : Column). HasColumn s1 c.table (codes "id")) cs
    ids_after [] s1 x hs' = tt
    ids_after (d ∷ cs) s1 x (h', hs') =
        (HasColumn-Extends s s1 d.table (codes "id") x h', ids_after cs s1 x hs')

add_columns-keeps :
    (columns : List Column) (other : Bytes) (s s' : Schema)
    → All (λ (c : Column). bytes_eq c.table other ≡ false) columns
    → add_columns columns s ≡ ok s'
    → load other s' ≡ load other s
unfolding add_columns
add_columns-keeps [] other s s' h e = ap (load other) (sym (ok-injective e))
add_columns-keeps (c ∷ columns) other s s' (h, hs) e =
    let (s1, f, g) =
      >>=-eq-ok (add_column_if_missing c.table c.column c.column_type s)
        (λ s1. add_columns columns s1) e in
    add_columns-keeps columns other s1 s' hs g
    ∙ add_column_if_missing-keeps c.table c.column c.column_type other s s1 h f

add_columns-same :
    (columns : List Column) (s : Schema) → HasColumns s columns → add_columns columns s ≡ ok s
unfolding add_columns
add_columns-same [] s h = refl
add_columns-same (c ∷ columns) s (h, hs) =
    rw (add_column_if_missing-same c.table c.column c.column_type s h)
      (add_columns-same columns s hs)

abbrev column_in : Bytes → Bytes → Column
column_in table column = record { table = table; column = column; column_type = [] }

abbrev pub test_keys : List Bytes
test_keys =
    codes "name"
    ∷ codes "created_at"
    ∷ codes "total_requests"
    ∷ codes "test_time_secs"
    ∷ codes "request_per_second"
    ∷ []

abbrev pub log_keys : List Bytes
log_keys =
    codes "stresstest_id"
    ∷ codes "reference"
    ∷ codes "connection_id"
    ∷ codes "request_time"
    ∷ codes "response_time"
    ∷ codes "time_taken"
    ∷ codes "created_at"
    ∷ []

abbrev pub scheduled_keys : List Bytes
scheduled_keys =
    codes "reference"
    ∷ codes "connection_id"
    ∷ codes "id"
    ∷ codes "message"
    ∷ codes "created_at"
    ∷ codes "stresstest_id"
    ∷ codes "sent_at"
    ∷ []

-- The columns of the first version, with the two that came next.
pub record HasKeys (s : Schema) : Type 0 where
  pub of_test : All (HasColumn s stress_test) (codes "node_test_mode" ∷ codes "id" ∷ test_keys)
  pub of_log : All (HasColumn s request_response_log) (codes "mti" ∷ codes "id" ∷ log_keys)
  pub of_scheduled : All (HasColumn s scheduled_message) scheduled_keys

pub last_column :
    (s : Schema)
    → HasColumns s refund_columns
    → HasColumn s request_response_log (codes "original_log_id")
last_column s (a, (b, (c, (d, (e, (f, (g, (h, (i, (j, k)))))))))) = j

-- Started again, nothing changes.
pub new_stress_test_db-same :
    (s : Schema) → HasKeys s → HasColumns s refund_columns → new_stress_test_db s ≡ ok s
unfolding new_stress_test_db add_refund_columns
new_stress_test_db-same s keys refunds =
    let (mode, (test_id, _)) = keys.of_test in
    let (mti, (log_id, (test, (reference, (connection, _))))) = keys.of_log in
    let (sreference, (sconnection, _)) = keys.of_scheduled in
    rw
      (
        create_table-same stress_test (codes "id") stress_test_columns s test_id,
        add_column_if_missing-same stress_test (codes "node_test_mode")
            (codes "TEXT NOT NULL DEFAULT 'advertised'") s mode,
        create_table-same request_response_log (codes "id") log_columns s log_id,
        add_column_if_missing-same request_response_log (codes "mti") (codes "TEXT") s mti,
        add_columns-same refund_columns s refunds,
        create_index-same request_response_log (codes "stresstest_id") s test,
        create_index-same request_response_log (codes "original_log_id") s (last_column s refunds),
        create_index-same request_response_log (codes "reference") s reference,
        create_index-same request_response_log (codes "connection_id") s connection,
        create_table-same scheduled_message (codes "reference") scheduled_columns s sreference,
        create_index-same scheduled_message (codes "reference") s sreference,
        create_index-same scheduled_message (codes "connection_id") s sconnection,
      )
      refl

pub All-HasColumn-Extends :
    (s s' : Schema) (table : Bytes) (keys : List Bytes)
    → Extends s s'
    → All (HasColumn s table) keys
    → All (HasColumn s' table) keys
All-HasColumn-Extends s s' table [] h hs = tt
All-HasColumn-Extends s s' table (key ∷ keys) h (h', hs) =
    (HasColumn-Extends s s' table key h h', All-HasColumn-Extends s s' table keys h hs)

pub IsOldTable-Extends :
    (s s' : Schema) (table : Bytes) (keys : List Bytes)
    → Extends s s'
    → load table s' ≡ load table s
    → IsOldTable s table keys
    → IsOldTable s' table keys
IsOldTable-Extends s s' table keys h e (inl none_yet) = inl (e ∙ none_yet)
IsOldTable-Extends s s' table keys h e (inr old) = inr (All-HasColumn-Extends s s' table keys h old)

-- A table is created, or is there, and has its new column.
pub table-HasColumns :
    (table column column_type : Bytes) (columns : Dict Bytes) (keys : List Bytes) (s : Schema)
    → All (λ key. (ty : Bytes) × (load key columns ≡ some ty)) (codes "id" ∷ keys)
    → IsOldTable s table (codes "id" ∷ keys)
    → (s' : Schema) × (add_column_if_missing table column column_type (create_table table columns s)
        ≡ ok s')
      × Extends s s'
      × All (HasColumn s' table) (column ∷ codes "id" ∷ keys)
      × ((other : Bytes) → bytes_eq table other ≡ false → load other s' ≡ load other s)
table-HasColumns table column column_type columns keys s in_columns old =
    let created = create_table table columns s in
    let grown = create_table-Extends table columns s in
    let has = create_table-HasColumns table columns s (codes "id" ∷ keys) in_columns old in
    let (s', e, x, g) =
      add_column_if_missing-Gives table column column_type (codes "id") created (has.0) in
    (
      s',
      e,
      (λ t c ty i. x t c ty (grown t c ty i)),
      (g, All-HasColumn-Extends created s' table (codes "id" ∷ keys) x has),
      λ other d.
          add_column_if_missing-keeps table column column_type other created s' d e
          ∙ create_table-keeps table other columns s d,
    )

abbrev pub InColumns : Dict Bytes → List Bytes → Type 0
InColumns columns keys = All (λ key. (ty : Bytes) × (load key columns ≡ some ty)) keys

pub stress_test-InColumns : InColumns stress_test_columns (codes "id" ∷ test_keys)
unfolding load
stress_test-InColumns =
    ((_, refl), ((_, refl), ((_, refl), ((_, refl), ((_, refl), ((_, refl), tt))))))

pub log-InColumns : InColumns log_columns (codes "id" ∷ log_keys)
unfolding load
log-InColumns = (
  (_, refl),
  ((_, refl), ((_, refl), ((_, refl), ((_, refl), ((_, refl), ((_, refl), ((_, refl), tt))))))),
)

pub scheduled-InColumns : InColumns scheduled_columns scheduled_keys
unfolding load
scheduled-InColumns =
    ((_, refl), ((_, refl), ((_, refl), ((_, refl), ((_, refl), ((_, refl), ((_, refl), tt)))))))

-- The columns of the refund tests, with their indexes.
pub add_refund_columns-HasColumns :
    (s : Schema)
    → HasColumn s stress_test (codes "id")
    → HasColumn s request_response_log (codes "id")
    → HasColumn s request_response_log (codes "stresstest_id")
    → (s' : Schema) × (add_refund_columns s ≡ ok s')
      × Extends s s'
      × HasColumns s' refund_columns
      × (load scheduled_message s' ≡ load scheduled_message s)
unfolding add_refund_columns
add_refund_columns-HasColumns s test_id log_id test =
    let (s', e, x, g) = add_columns-HasColumns refund_columns s (
      test_id,
      (test_id, (log_id, (log_id, (log_id, (log_id, (log_id, (log_id, (log_id, (log_id, tt))))))))),
    ) in
    let k =
      add_columns-keeps refund_columns scheduled_message s s'
        (refl, (refl, (refl, (refl, (refl, (refl, (refl, (refl, (refl, (refl, tt)))))))))) e in
    (
      s',
      rw
          (
            e,
            create_index-same request_response_log (codes "stresstest_id") s'
                (HasColumn-Extends s s' request_response_log (codes "stresstest_id") x test),
            create_index-same request_response_log (codes "original_log_id") s' (last_column s' g),
          )
          refl,
      x,
      g,
      k,
    )
