-- ===== src/Database/Results.antt =====
-- `GetStressTestResults` of database/dao.go: counts, latencies and percentiles of a test. A latency is an
-- integer of milliseconds, which a float64 holds exactly below 2^53; an average or a rate is kept as its
-- numerator and denominator.
pub mod Folds
pub mod Counts
pub mod Percentiles
use longclaw.Base.{
  ℕ, zero, suc, ◌+◌, ◌-◌, ◌*◌, ◌≤◌, Bool, true, false, not, ◌&&◌, ◌||◌, Option, none, some, List,
  [], ◌∷◌, ◌++◌, map, foldl, filter, length, get_elem?, Bytes, codes, bytes_eq, ltb, leb, ◌==◌, ◌^◌,
  if◌then◌else◌, Go, ok, err, panic, ◌>>=◌, ℤ, pos, negsuc,
}
use longclaw.Base.Dict.{Dict, load, store}
use longclaw.Base.Order.{int_le}
use longclaw.Base.Sort.{sort}
use longclaw.Database.Tables.{LogRow, ScheduledMessage, Tables, is_null}
use longclaw.Database.StressTests.{StressTest, QueryError, get_stress_test, of_test}

abbrev pub int_add : ℤ → ℤ → ℤ
int_add (pos a) (pos b) = pos (a + b)
int_add (pos a) (negsuc b) = if ltb b a then pos (a - suc b) else negsuc (b - a)
int_add (negsuc a) (pos b) = if ltb a b then pos (b - suc a) else negsuc (a - b)
int_add (negsuc a) (negsuc b) = negsuc (suc (a + b))

abbrev pub int_min : ℤ → ℤ → ℤ
int_min a b = if int_le a b then a else b

abbrev pub int_max : ℤ → ℤ → ℤ
int_max a b = if int_le a b then b else a

-- `COALESCE(mti, 'unknown')`
abbrev pub mti_or_unknown : Option Bytes → Bytes
mti_or_unknown none = codes "unknown"
mti_or_unknown (some mti) = mti

-- The values of a column that are not NULL.
abbrev pub cons_time : Option ℤ → List ℤ → List ℤ
cons_time none rest = rest
cons_time (some ms) rest = ms ∷ rest

unfoldable pub times : List LogRow → List ℤ
times [] = []
times (row ∷ rows) = cons_time row.time_taken (times rows)

-- `GROUP BY`: the rows of each MTI.
unfoldable pub add_group : Bytes → LogRow → Dict (List LogRow) → Dict (List LogRow)
add_group mti row [] = (mti, row ∷ []) ∷ []
add_group mti row ((other, rows) ∷ groups) =
    let rest = add_group mti row groups in
    if bytes_eq other mti then (other, row ∷ rows) ∷ groups else (other, rows) ∷ rest

unfoldable pub group_rows : List LogRow → Dict (List LogRow)
unfolding add_group
group_rows [] = []
group_rows (row ∷ rows) = add_group (mti_or_unknown row.mti) row (group_rows rows)

-- `domain.RequestSummary` with its latencies; `sum` over `answered` is the average.
pub record RequestSummary : Type 0 where
  pub logged : ℕ
  pub answered : ℕ
  pub unanswered : ℕ
  pub min : ℤ
  pub max : ℤ
  pub sum : ℤ
  pub p50 : ℤ
  pub p95 : ℤ
  pub p99 : ℤ

-- An aggregate of no values is NULL, which is read as 0.
unfoldable pub fold_times : (ℤ → ℤ → ℤ) → List ℤ → ℤ
fold_times f [] = pos 0
fold_times f (ms ∷ rest) = foldl f ms rest

unfoldable pub summarize : List LogRow → RequestSummary
unfolding times fold_times
summarize rows = record {
  logged = length rows;
  answered = length (times rows);
  unanswered = length rows - length (times rows);
  min = fold_times int_min (times rows);
  max = fold_times int_max (times rows);
  sum = fold_times int_add (times rows);
  p50 = pos 0;
  p95 = pos 0;
  p99 = pos 0;
}

unfoldable pub no_summary : RequestSummary
no_summary = record {
  logged = 0;
  answered = 0;
  unanswered = 0;
  min = pos 0;
  max = pos 0;
  sum = pos 0;
  p50 = pos 0;
  p95 = pos 0;
  p99 = pos 0;
}

-- The loop over the groups: the overall figures.
unfoldable pub combine : RequestSummary → RequestSummary → RequestSummary
combine results summary =
    let found = ltb 0 summary.answered in
    record results {
      logged = results.logged + summary.logged;
      answered = results.answered + summary.answered;
      min =
          if found && ((results.answered == 0) || not (int_le results.min summary.min))
          then summary.min
          else results.min;
      max = if found then int_max results.max summary.max else results.max;
      sum = int_add results.sum summary.sum;
    }

unfoldable pub combine_all : RequestSummary → Dict (List LogRow) → RequestSummary
unfolding combine summarize
combine_all results [] = results
combine_all results ((mti, rows) ∷ groups) = combine_all (combine results (summarize rows)) groups

-- The product of a share, in hundredths, and a count in floating point, rounded up.
pub record Ranks : Type 0 where
  pub rank : (share count : ℕ) → ℕ
  pub rank_le : (share count : ℕ) → share ≤ 100 → rank share count ≤ count
  pub rank_mono : (share other count : ℕ) → share ≤ other → rank share count ≤ rank other count

-- The rows in the order of their latencies.
abbrev pub faster : Bytes × ℤ → Bytes × ℤ → Bool
faster (m, a) (n, b) = int_le a b

unfoldable pub latency_rows : List LogRow → List (Bytes × ℤ)
latency_rows [] = []
latency_rows (row ∷ rows) =
    let rest = latency_rows rows in
    elim row.time_taken [ none ↦ rest | some ms ↦ (mti_or_unknown row.mti, ms) ∷ rest ]

abbrev pub or_nil : Option (List ℤ) → List ℤ
or_nil none = []
or_nil (some latencies) = latencies

unfoldable pub add_latency : Dict (List ℤ) → Bytes × ℤ → Dict (List ℤ)
add_latency latencies (mti, ms) = store mti (or_nil (load mti latencies) ++ (ms ∷ [])) latencies

-- `domain.StressTestResults`: the figures of all rows, and of each MTI's. The rate is the requests and
-- the nanoseconds that they took.
pub record StressTestResults : Type 0 where
  pub stress_test : StressTest
  pub overall : RequestSummary
  pub by_mti : Dict RequestSummary
  pub follow_ups_not_sent : ℕ
  pub achieved_per_second : Option (ℕ × ℕ)

-- `results.Unanswered`, once the groups are combined.
unfoldable pub overall_of : List LogRow → RequestSummary
unfolding combine_all no_summary group_rows
overall_of rows =
    let combined = combine_all no_summary (group_rows rows) in
    record combined { unanswered = combined.logged - combined.answered }

abbrev pub not_sent : ℕ → ScheduledMessage → Bool
not_sent id row = (row.stress_test_id == id) && is_null row.sent_at

abbrev one_second : ℕ
one_second = 1000000000

-- A test that is still running is divided by the time it has run, of at least a second.
unfoldable pub test_duration : ℕ → (running : ℕ) → ℕ
test_duration secs running =
    if ltb running (secs * one_second)
    then (if ltb running one_second then one_second else running)
    else secs * one_second

unfoldable pub achieved : ℤ → (running logged : ℕ) → Option (ℕ × ℕ)
unfolding test_duration
achieved (pos zero) running logged = none
achieved (pos (suc secs)) running logged = some (logged, test_duration (suc secs) running)
achieved (negsuc secs) running logged = none

unfoldable pub finish_results :
    StressTest
    → (now : ℕ) → List ScheduledMessage
    → RequestSummary
    → Dict RequestSummary
    → StressTestResults
unfolding achieved
finish_results test now waiting overall by_mti = record {
  stress_test = test;
  overall = overall;
  by_mti = by_mti;
  follow_ups_not_sent = length waiting;
  achieved_per_second = achieved test.test_time_secs (now - test.created_at) overall.logged;
}

module _ (ranks : Ranks) where
  open ranks use {rank}

  abbrev at_least_one : ℕ → ℕ
  at_least_one r = if ltb r 1 then 1 else r

  unfoldable pub percentile : List ℤ → ℕ → Go QueryError ℤ
  percentile [] share = ok (pos 0)
  percentile (ms ∷ rest) share =
      elim (get_elem? (ms ∷ rest) (at_least_one (rank share (length (ms ∷ rest))) - 1)) [
        | none ↦ panic
        | some value ↦ ok value
      ]

  unfoldable pub set_percentiles : List ℤ → RequestSummary → Go QueryError RequestSummary
  unfolding percentile
  set_percentiles sorted latency = do
    p50 ← percentile sorted 50
    p95 ← percentile sorted 95
    p99 ← percentile sorted 99
    ok (record latency { p50 = p50; p95 = p95; p99 = p99 })

  unfoldable pub set_all : Dict (List ℤ) → Dict (List LogRow) → Go QueryError (Dict RequestSummary)
  unfolding set_percentiles
  set_all latencies [] = ok []
  set_all latencies ((mti, rows) ∷ groups) = do
    summary ← set_percentiles (or_nil (load mti latencies)) (summarize rows)
    rest ← set_all latencies groups
    ok ((mti, summary) ∷ rest)

  unfoldable pub results_of :
      StressTest → (now : ℕ) → List LogRow → List ScheduledMessage → Go QueryError StressTestResults
  unfolding overall_of finish_results set_percentiles set_all latency_rows add_latency
  results_of test now rows waiting =
      let sorted = sort faster (latency_rows rows) in
      do
        overall ← set_percentiles (map (λ r. r.1) sorted) (overall_of rows)
        by_mti ← set_all (foldl add_latency [] sorted) (group_rows rows)
        ok (finish_results test now waiting overall by_mti)

  unfoldable pub get_stress_test_results : Tables → (now id : ℕ) → Go QueryError StressTestResults
  unfolding results_of
  get_stress_test_results t now id = do
    test ← get_stress_test t id
    results_of test now (filter (of_test id) t.log) (filter (not_sent id) t.scheduled)
