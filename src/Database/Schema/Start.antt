-- ===== src/Database/Schema/Start.antt =====
-- All of `NewStressTestDB` (database/db_helper.go).
use longclaw.Base.{◌∷◌, codes, Go, ok, ◌>>=◌, All, ◌≡◌, refl}
use longclaw.Database.Schema.{
  Schema, SchemaError, create_table, add_column_if_missing, create_index, stress_test,
  request_response_log, scheduled_message, stress_test_columns, log_columns, scheduled_columns,
  refund_columns, add_refund_columns, new_stress_test_db,
}
use longclaw.Database.Schema.Migrated.{
  HasColumn, Extends, IsOldTable, create_table-Extends, create_table-HasColumns, create_index-same,
}
use longclaw.Database.Schema.Columns.{
  HasColumns, HasColumns-Extends, HasKeys, test_keys, new_stress_test_db-same,
  All-HasColumn-Extends, IsOldTable-Extends, table-HasColumns, log_keys, scheduled_keys,
  stress_test-InColumns, log-InColumns, scheduled-InColumns, add_refund_columns-HasColumns,
}

-- A database of an older version, or a new one: the tables that are there have the columns of the first.
abbrev pub IsOld : Schema → Type 0
IsOld s =
    IsOldTable s stress_test (codes "id" ∷ test_keys)
    × IsOldTable s request_response_log (codes "id" ∷ log_keys)
    × IsOldTable s scheduled_message scheduled_keys

-- How a start ends.
abbrev pub Started : Schema → Go SchemaError Schema → Type 0
Started s call =
    (s' : Schema) × (call ≡ ok s')
    × Extends s s'
    × HasKeys s'
    × HasColumns s' refund_columns
    × (new_stress_test_db s' ≡ ok s')

-- The last phase: `scheduled_message`, with its index.
abbrev scheduled_phase : Schema → Go SchemaError Schema
scheduled_phase s = do
  s4 ← create_index request_response_log (codes "reference") s
  s5 ← create_index request_response_log (codes "connection_id") s4
  s6 ←
      create_index scheduled_message (codes "reference")
        (create_table scheduled_message scheduled_columns s5)
  create_index scheduled_message (codes "connection_id") s6

-- The columns of `stress_test` and of the log, but those of the refund tests.
abbrev HasLogKeys : Schema → Type 0
HasLogKeys s =
    All (HasColumn s stress_test) (codes "node_test_mode" ∷ codes "id" ∷ test_keys)
    × All (HasColumn s request_response_log) (codes "mti" ∷ codes "id" ∷ log_keys)

HasLogKeys-Extends : (s s' : Schema) → Extends s s' → HasLogKeys s → HasLogKeys s'
HasLogKeys-Extends s s' x (test, log) = (
  All-HasColumn-Extends s s' stress_test (codes "node_test_mode" ∷ codes "id" ∷ test_keys) x test,
  All-HasColumn-Extends s s' request_response_log (codes "mti" ∷ codes "id" ∷ log_keys) x log,
)

scheduled_phase-Started :
    (s : Schema)
    → HasLogKeys s
    → HasColumns s refund_columns
    → IsOldTable s scheduled_message scheduled_keys
    → Started s (scheduled_phase s)
scheduled_phase-Started s (test, log) refunds old =
    let s' = create_table scheduled_message scheduled_columns s in
    let x = create_table-Extends scheduled_message scheduled_columns s in
    let scheduled =
      create_table-HasColumns scheduled_message scheduled_columns s scheduled_keys
        scheduled-InColumns old in
    let (test', log') = HasLogKeys-Extends s s' x (test, log) in
    let keys : HasKeys s' = record { of_test = test'; of_log = log'; of_scheduled = scheduled } in
    let refunds' = HasColumns-Extends s s' refund_columns x refunds in
    (
      s',
      rw
          (
            create_index-same request_response_log (codes "reference") s (log.1.1.1.0),
            create_index-same request_response_log (codes "connection_id") s (log.1.1.1.1.0),
            create_index-same scheduled_message (codes "reference") s' (scheduled.0),
            create_index-same scheduled_message (codes "connection_id") s' (scheduled.1.0),
          )
          refl,
      x,
      keys,
      refunds',
      new_stress_test_db-same s' keys refunds',
    )

-- What was before the steps is not lost either.
Started-before :
    (s s1 : Schema) (call : Go SchemaError Schema) → Extends s s1 → Started s1 call → Started s call
Started-before s s1 call x (s', e, x', keys, refunds, again) =
    (s', e, (λ t c ty i. x' t c ty (x t c ty i)), keys, refunds, again)

-- From the columns of the refund tests on.
refund_phase-Started :
    (s : Schema)
    → HasLogKeys s
    → IsOldTable s scheduled_message scheduled_keys
    → Started s (add_refund_columns s >>= λ s3. scheduled_phase s3)
refund_phase-Started s (test, log) old =
    let (s', e, x, refunds, k) = add_refund_columns-HasColumns s (test.1.0) (log.1.0) (log.1.1.0) in
    rw e (
      Started-before s s' (scheduled_phase s') x (
        scheduled_phase-Started s' (HasLogKeys-Extends s s' x (test, log)) refunds
          (IsOldTable-Extends s s' scheduled_message scheduled_keys x k old)))

abbrev log_phase : Schema → Go SchemaError Schema
log_phase s = do
  s2 ←
      add_column_if_missing request_response_log (codes "mti") (codes "TEXT")
        (create_table request_response_log log_columns s)
  s3 ← add_refund_columns s2
  scheduled_phase s3

-- From `request_response_log` on.
log_phase-Started :
    (s : Schema)
    → All (HasColumn s stress_test) (codes "node_test_mode" ∷ codes "id" ∷ test_keys)
    → IsOldTable s request_response_log (codes "id" ∷ log_keys)
    → IsOldTable s scheduled_message scheduled_keys
    → Started s (log_phase s)
log_phase-Started s test old_log old =
    let (s', e, x, log, k) =
      table-HasColumns request_response_log (codes "mti") (codes "TEXT") log_columns log_keys s
        log-InColumns old_log in
    rw e (
      Started-before s s' (add_refund_columns s' >>= λ s3. scheduled_phase s3) x (
        refund_phase-Started s'
          (
            All-HasColumn-Extends s s' stress_test (codes "node_test_mode" ∷ codes "id" ∷ test_keys)
                x test,
            log,
          )
          (IsOldTable-Extends s s' scheduled_message scheduled_keys x (k scheduled_message refl)
            old)))

-- The start of the program on a new database, or on one whose tables have the columns of the first
-- version, succeeds; then every column of the first version and every column added since, among them
-- all that the queries use, is there, no column of the old database is lost or declared otherwise, and
-- another start succeeds and changes nothing.
pub new_stress_test_db-Started : (s : Schema) → IsOld s → Started s (new_stress_test_db s)
unfolding new_stress_test_db
new_stress_test_db-Started s (old_test, old_log, old) =
    let (s', e, x, test, k) =
      table-HasColumns stress_test (codes "node_test_mode")
        (codes "TEXT NOT NULL DEFAULT 'advertised'") stress_test_columns test_keys s
        stress_test-InColumns old_test in
    rw e (
      Started-before s s' (log_phase s') x (
        log_phase-Started s' test
          (IsOldTable-Extends s s' request_response_log (codes "id" ∷ log_keys) x
            (k request_response_log refl) old_log)
          (IsOldTable-Extends s s' scheduled_message scheduled_keys x (k scheduled_message refl)
            old)))
