-- ===== src/Database/Schema.antt =====
-- database/db_helper.go: the tables that `NewStressTestDB` creates and the columns that it adds to those of
-- older versions. SQL is read as what it does to the names and declarations of the columns; the engine
-- is taken to fail only on a table or a column that is not there.
pub mod Migrated
pub mod Columns
pub mod Start
use longclaw.Base.{Option, none, some, List, [], ◌∷◌, Bytes, codes, Go, ok, err, panic, ◌>>=◌}
use longclaw.Base.Dict.{Dict, load, store}

-- For each table the declarations of its columns.
abbrev pub Schema : Type 0
Schema = Dict (Dict Bytes)

pub data SchemaError : Type 0 where
  no_such_table : Bytes → SchemaError
  no_such_column : Bytes → SchemaError

abbrev pub column_of : Bytes → Option (Dict Bytes) → Option Bytes
column_of column none = none
column_of column (some columns) = load column columns

unfoldable pub find : Bytes → Bytes → Schema → Option Bytes
find table column s = column_of column (load table s)

abbrev pub create_unless : Option (Dict Bytes) → Bytes → Dict Bytes → Schema → Schema
create_unless none table columns s = store table columns s
create_unless (some old) table columns s = s

-- `CREATE TABLE IF NOT EXISTS`
unfoldable pub create_table : Bytes → Dict Bytes → Schema → Schema
create_table table columns s = create_unless (load table s) table columns s

abbrev pub alter_table :
    Option (Dict Bytes) → Bytes → Bytes → Bytes → Schema → Go SchemaError Schema
alter_table none table column column_type s = err (no_such_table table)
alter_table (some columns) table column column_type s =
    ok (store table (store column column_type columns) s)

abbrev pub add_unless : Option Bytes → Bytes → Bytes → Bytes → Schema → Go SchemaError Schema
add_unless none table column column_type s = alter_table (load table s) table column column_type s
add_unless (some old) table column column_type s = ok s

unfoldable pub add_column_if_missing : Bytes → Bytes → Bytes → Schema → Go SchemaError Schema
unfolding find
add_column_if_missing table column column_type s =
    add_unless (find table column s) table column column_type s

-- `CREATE INDEX IF NOT EXISTS` on one of its columns. An index adds nothing to the schema.
abbrev pub index_on : Option Bytes → Bytes → Schema → Go SchemaError Schema
index_on none column s = err (no_such_column column)
index_on (some column_type) column s = ok s

unfoldable pub create_index : Bytes → Bytes → Schema → Go SchemaError Schema
unfolding find
create_index table column s = index_on (find table column s) column s

abbrev pub stress_test : Bytes
stress_test = codes "stress_test"

abbrev pub request_response_log : Bytes
request_response_log = codes "request_response_log"

abbrev pub scheduled_message : Bytes
scheduled_message = codes "scheduled_message"

abbrev pub stress_test_columns : Dict Bytes
stress_test_columns =
    (codes "id", codes "INTEGER PRIMARY KEY AUTOINCREMENT")
    ∷ (codes "name", codes "TEXT NOT NULL")
    ∷ (codes "created_at", codes "DATETIME DEFAULT CURRENT_TIMESTAMP")
    ∷ (codes "total_requests", codes "INTEGER DEFAULT 0")
    ∷ (codes "test_time_secs", codes "INTEGER NOT NULL")
    ∷ (codes "request_per_second", codes "INTEGER NOT NULL")
    ∷ (codes "node_test_mode", codes "TEXT NOT NULL DEFAULT 'advertised'")
    ∷ []

abbrev pub log_columns : Dict Bytes
log_columns =
    (codes "id", codes "INTEGER PRIMARY KEY AUTOINCREMENT")
    ∷ (codes "request_time", codes "DATETIME NOT NULL")
    ∷ (codes "response_time", codes "DATETIME")
    ∷ (codes "time_taken", codes "INTEGER")
    ∷ (codes "created_at", codes "DATETIME DEFAULT CURRENT_TIMESTAMP")
    ∷ (codes "stresstest_id", codes "INTEGER NOT NULL")
    ∷ (codes "reference", codes "TEXT NOT NULL")
    ∷ (codes "connection_id", codes "TEXT NOT NULL")
    ∷ (codes "mti", codes "TEXT")
    ∷ []

abbrev pub scheduled_columns : Dict Bytes
scheduled_columns =
    (codes "id", codes "INTEGER PRIMARY KEY AUTOINCREMENT")
    ∷ (codes "reference", codes "TEXT NOT NULL")
    ∷ (codes "message", codes "TEXT NOT NULL")
    ∷ (codes "created_at", codes "DATETIME DEFAULT CURRENT_TIMESTAMP")
    ∷ (codes "connection_id", codes "TEXT NOT NULL")
    ∷ (codes "stresstest_id", codes "INTEGER NOT NULL")
    ∷ (codes "sent_at", codes "DATETIME DEFAULT NULL")
    ∷ []

pub record Column : Type 0 where
  pub table : Bytes
  pub column : Bytes
  pub column_type : Bytes

abbrev column_in : Bytes → Bytes → Bytes → Column
column_in table column column_type = record {
  table = table;
  column = column;
  column_type = column_type;
}

abbrev pub refund_columns : List Column
refund_columns =
    column_in stress_test (codes "test_type") (codes "TEXT NOT NULL DEFAULT 'sale'")
    ∷ column_in stress_test (codes "source_test_id") (codes "INTEGER")
    ∷ column_in request_response_log (codes "processing_code") (codes "TEXT")
    ∷ column_in request_response_log (codes "pan") (codes "TEXT")
    ∷ column_in request_response_log (codes "amount") (codes "TEXT")
    ∷ column_in request_response_log (codes "currency") (codes "TEXT")
    ∷ column_in request_response_log (codes "request_message") (codes "TEXT")
    ∷ column_in request_response_log (codes "response_code") (codes "TEXT")
    ∷ column_in request_response_log (codes "auth_id") (codes "TEXT")
    ∷ column_in request_response_log (codes "original_log_id") (codes "INTEGER")
    ∷ []

unfoldable pub add_columns : List Column → Schema → Go SchemaError Schema
unfolding add_column_if_missing
add_columns [] s = ok s
add_columns (c ∷ columns) s = do
  s' ← add_column_if_missing c.table c.column c.column_type s
  add_columns columns s'

unfoldable pub add_refund_columns : Schema → Go SchemaError Schema
unfolding add_columns create_index
add_refund_columns s = do
  s1 ← add_columns refund_columns s
  s2 ← create_index request_response_log (codes "stresstest_id") s1
  create_index request_response_log (codes "original_log_id") s2

unfoldable pub new_stress_test_db : Schema → Go SchemaError Schema
unfolding create_table add_column_if_missing add_refund_columns create_index
new_stress_test_db s = do
  s1 ←
      add_column_if_missing stress_test (codes "node_test_mode")
        (codes "TEXT NOT NULL DEFAULT 'advertised'")
        (create_table stress_test stress_test_columns s)
  s2 ←
      add_column_if_missing request_response_log (codes "mti") (codes "TEXT")
        (create_table request_response_log log_columns s1)
  s3 ← add_refund_columns s2
  s4 ← create_index request_response_log (codes "reference") s3
  s5 ← create_index request_response_log (codes "connection_id") s4
  s6 ←
      create_index scheduled_message (codes "reference")
        (create_table scheduled_message scheduled_columns s5)
  create_index scheduled_message (codes "connection_id") s6
