-- ===== src/Database/StressTests.antt =====
-- `CreateStressTest`, `GetStressTest` and `GetRequestLogs` of database/dao.go.
use longclaw.Base.{
  ℕ, zero, suc, ◌+◌, Bool, Option, none, some, List, [], ◌∷◌, ◌++◌, map, filter, Bytes, ◌==◌,
  if◌then◌else◌, Go, ok, err, ℤ, pos, negsuc,
}
use longclaw.Database.Tables.{LogRow, TestRow, Tables}

-- `domain.StressTest`: a test with the figures that were asked for.
pub record StressTest : Type 0 where
  pub id : ℕ
  pub name : Bytes
  pub created_at : ℕ
  pub total_requests : ℕ
  pub test_time_secs : ℤ
  pub request_per_second : ℤ
  pub node_test_mode : Bytes
  pub test_type : Bytes
  pub source_test_id : ℤ

pub data QueryError : Type 0 where
  no_rows : QueryError
  not_inserted : QueryError

-- `nullIfZero`
abbrev pub null_if_zero_int : ℤ → Option ℤ
null_if_zero_int (pos zero) = none
null_if_zero_int (pos (suc n)) = some (pos (suc n))
null_if_zero_int (negsuc n) = some (negsuc n)

unfoldable pub test_row : ℕ → StressTest → TestRow
test_row id test = record {
  id = id;
  name = test.name;
  created_at = test.created_at;
  total_requests = 0;
  test_time_secs = test.test_time_secs;
  request_per_second = test.request_per_second;
  node_test_mode = test.node_test_mode;
  test_type = test.test_type;
  source_test_id = null_if_zero_int test.source_test_id;
}

-- Whether the engine accepts the row is an argument, as is its `CURRENT_TIMESTAMP`, which the row gets.
-- The test gets the row's id and the program's time.
unfoldable pub create_stress_test :
    Bool → (current_timestamp now : ℕ) → StressTest → Tables → Go QueryError (StressTest × Tables)
unfolding test_row
create_stress_test accepted current_timestamp now test t =
    let created = record test { id = t.next_test; created_at = now; total_requests = 0 } in
    let row = record created { created_at = current_timestamp } in
    if accepted
    then ok (
      created,
      record t { tests = t.tests ++ (test_row t.next_test row ∷ []); next_test = t.next_test + 1 },
    )
    else err not_inserted

-- `COALESCE(source_test_id, 0)`
abbrev pub coalesce_zero : Option ℤ → ℤ
coalesce_zero none = pos 0
coalesce_zero (some i) = i

unfoldable pub read_test : TestRow → StressTest
read_test row = record {
  id = row.id;
  name = row.name;
  created_at = row.created_at;
  total_requests = row.total_requests;
  test_time_secs = row.test_time_secs;
  request_per_second = row.request_per_second;
  node_test_mode = row.node_test_mode;
  test_type = row.test_type;
  source_test_id = coalesce_zero row.source_test_id;
}

unfoldable pub first_test : List TestRow → Go QueryError StressTest
unfolding read_test
first_test [] = err no_rows
first_test (row ∷ rows) = ok (read_test row)

unfoldable pub get_stress_test : Tables → ℕ → Go QueryError StressTest
unfolding first_test
get_stress_test t id = first_test (filter (λ row. row.id == id) t.tests)

-- The columns that `GetRequestLogs` reads (`domain.RequestLog`); a row without a response has zeros.
pub record LoggedRequest : Type 0 where
  pub id : ℕ
  pub request_time : ℕ
  pub response_time : ℕ
  pub time_taken : ℤ
  pub stress_test_id : ℕ
  pub reference : Bytes
  pub connection_id : Bytes
  pub mti : Bytes

abbrev time_or_zero : Option ℕ → ℕ
time_or_zero none = 0
time_or_zero (some time) = time

abbrev text_or_empty : Option Bytes → Bytes
text_or_empty none = []
text_or_empty (some text) = text

unfoldable pub read_log : LogRow → LoggedRequest
read_log row = record {
  id = row.id;
  request_time = row.request_time;
  response_time = time_or_zero row.response_time;
  time_taken = coalesce_zero row.time_taken;
  stress_test_id = row.stress_test_id;
  reference = row.reference;
  connection_id = row.connection_id;
  mti = text_or_empty row.mti;
}

abbrev pub of_test : ℕ → LogRow → Bool
of_test id row = row.stress_test_id == id

unfoldable pub get_request_logs : Tables → ℕ → List LoggedRequest
unfolding read_log
get_request_logs t id = map read_log (filter (of_test id) t.log)
