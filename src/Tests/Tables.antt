-- ===== src/Tests/Tables.antt =====
-- The tables of the database with a sale, a refund and an answer.
use native.Mathlib.Nat.{mul-le-mul_right}
use longclaw.Base.{
  ℕ, Bool, true, false, Option, Bytes, bytes_eq, ap, ◌+◌, ◌*◌, ◌/◌, ◌≤◌, ◌≡◌, refl, arith, not,
  none, some, [], ◌∷◌, ◌++◌, codes, filter, foldl, ◌==◌, Returns, pos, inl, inr,
}
use longclaw.Database.{RequestLog, request_log_insert}
use longclaw.Database.Tables.{LogRow, TestRow, Tables, Answer, answered_row, new_row, apply_op}
use longclaw.Database.Tables.Answers.{key_of, answer_op, delete_op, apply_op-insert}
use longclaw.Database.Refunds.{candidate_rows}
use longclaw.Database.Refunds.Pending.{candidate_rows-refund}
use longclaw.Database.Results.{
  Ranks, summarize, times, int_max, overall_of, get_stress_test_results,
}
use longclaw.Database.Results.Counts.{overall_of-direct}
use longclaw.Database.Results.Percentiles.{InOrder, get_stress_test_results-InOrder}
use longclaw.Base.Dict.{load}
use longclaw.Database.Schema.{find, Schema, new_stress_test_db, request_response_log}
use longclaw.Database.Schema.Start.{Started, new_stress_test_db-Started}

abbrev sale_entry : RequestLog
sale_entry = record {
  stress_test_id = 1;
  request_time = 3;
  reference = codes "000000000002";
  connection_id = codes "10.0.0.1:99";
  mti = codes "0100";
  processing_code = codes "000000";
  pan = codes "4111111111111115";
  amount = codes "000000001000";
  currency = codes "840";
  request_message = codes "0100";
  original_log_id = 0;
}

abbrev refund_entry : RequestLog
refund_entry = record sale_entry {
  stress_test_id = 2;
  reference = codes "000000000003";
  processing_code = codes "200000";
  original_log_id = 7;
}

abbrev sample_answer : Answer
sample_answer = record {
  request_time = 4000000;
  response_time = 9000000;
  time_taken = pos 5;
  response_code = codes "00";
  auth_id = codes "123456";
}

-- An approved sale with the id 7.
abbrev sample_row : LogRow
sample_row = answered_row sample_answer (new_row 7 sale_entry none)

abbrev sample_test : TestRow
sample_test = record {
  id = 1;
  name = codes "sales";
  created_at = 0;
  total_requests = 0;
  test_time_secs = pos 10;
  request_per_second = pos 5;
  node_test_mode = codes "advertised";
  test_type = codes "sale";
  source_test_id = none;
}

abbrev sample_tables : Tables
sample_tables = record {
  tests = sample_test ∷ [];
  log = sample_row ∷ [];
  scheduled = [];
  next_test = 2;
  next_row = 8;
  next_scheduled = 1;
}

-- The reversal of an unanswered sale, with its reference and its client.
abbrev reversal_entry : RequestLog
reversal_entry = record sale_entry { mti = codes "0400" }

abbrev is_reversal : Option Bytes → Bool
is_reversal none = true
is_reversal (some mti) = not (bytes_eq mti (codes "0400"))

abbrev waiting_tables : Tables
waiting_tables = record sample_tables { log = new_row 7 sale_entry none ∷ [] }

apply_op-insert_example :
    let inserted = apply_op waiting_tables (request_log_insert reversal_entry none) in
    ((apply_op inserted (answer_op sample_answer (key_of reversal_entry))).log
      ≡ waiting_tables.log
        ++ (answered_row sample_answer (new_row waiting_tables.next_row reversal_entry none) ∷ []))
    × ((apply_op inserted (delete_op (key_of reversal_entry))).log ≡ waiting_tables.log)
apply_op-insert_example =
    apply_op-insert waiting_tables reversal_entry none sample_answer
      ((λ (reference, connection, mti, open_row). other_type mti), tt)
  where
    different : true ≡ false → ⊥
    different h = cc

    other_type : (new_row 7 sale_entry none).mti ≡ some (codes "0400") → ⊥
    other_type h = different (unfold new_row in ap is_reversal h)

candidate_rows-refund_example :
    candidate_rows 1 (apply_op sample_tables (request_log_insert refund_entry (some 7))).log
    ≡ filter (λ o. not (o.id == 7)) (candidate_rows 1 sample_tables.log)
candidate_rows-refund_example = candidate_rows-refund sample_tables 1 refund_entry 7 refl

overall_of-direct_example :
    overall_of sample_tables.log
    ≡ record (summarize sample_tables.log) { max = foldl int_max (pos 0) (times sample_tables.log) }
overall_of-direct_example = overall_of-direct sample_tables.log

-- The product of exact numbers, rounded up.
sample_ranks : Ranks
sample_ranks = record {
  rank = λ share count. (share * count + 99) / 100;
  rank_le = rank_le;
  rank_mono = rank_mono;
}
  where
    rank_le : (share count : ℕ) → share ≤ 100 → (share * count + 99) / 100 ≤ count
    rank_le share count h = let p = mul-le-mul_right count h in omega (arith, p)

    rank_mono :
        (share other count : ℕ)
        → share ≤ other
        → (share * count + 99) / 100 ≤ (other * count + 99) / 100
    rank_mono share other count h = let p = mul-le-mul_right count h in omega (arith, p)

get_stress_test_results-InOrder_example :
    Returns (InOrder sample_ranks) (get_stress_test_results sample_ranks sample_tables 3000000000 1)
get_stress_test_results-InOrder_example =
    get_stress_test_results-InOrder sample_ranks sample_tables 3000000000 1

-- The log of a database of the first version, without its later columns.
abbrev old_schema : Schema
old_schema =
    (
      request_response_log,
      (codes "id", codes "INTEGER PRIMARY KEY AUTOINCREMENT")
          ∷ (codes "request_time", codes "DATETIME NOT NULL")
          ∷ (codes "response_time", codes "DATETIME")
          ∷ (codes "time_taken", codes "INTEGER")
          ∷ (codes "created_at", codes "DATETIME DEFAULT CURRENT_TIMESTAMP")
          ∷ (codes "stresstest_id", codes "INTEGER NOT NULL")
          ∷ (codes "reference", codes "TEXT NOT NULL")
          ∷ (codes "connection_id", codes "TEXT NOT NULL")
          ∷ [],
    )
    ∷ []

new_stress_test_db-Started_example : Started old_schema (new_stress_test_db old_schema)
unfolding load find
new_stress_test_db-Started_example = new_stress_test_db-Started old_schema (
  inl refl,
  inr (
    (_, refl),
    ((_, refl), ((_, refl), ((_, refl), ((_, refl), ((_, refl), ((_, refl), ((_, refl), tt))))))),
  ),
  inl refl,
)
