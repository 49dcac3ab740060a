-- ===== src/Handlers/Created.antt =====
-- What `CreateTest` of handlers/test_handler.go leaves behind.
use longclaw.Base.{
  ℕ, zero, suc, ◌+◌, ◌-◌, ◌<◌, Bool, true, false, ◌&&◌, ◌||◌, Option, none, some, List, [], ◌∷◌,
  ◌++◌, bytes_eq, if◌then◌else◌, ok, ℤ, pos, negsuc, All, filter, filter-append, ◌==◌, ◌≡◌, refl,
  sym, ap, ◌∙◌, arith,
}
use longclaw.Base.Order.{int_le}
use longclaw.Database.Tables.{TestRow, Tables}
use longclaw.Database.StressTests.{
  null_if_zero_int, coalesce_zero, StressTest, create_stress_test, get_stress_test, first_test,
  read_test, test_row,
}
use longclaw.Runner.{Runner, reserve, start_insert, release, insert_failed, send_test}
use longclaw.Network.Targets.{node_test_mode_round_robin}
use longclaw.Handlers.{
  node_test_mode_advertised, Reply, success, bad_request, not_found, conflict, internal_error,
  test_type_sale, check_type, check_rate, check_mode, and_then, validate, App, insert_test,
  create_reserved, create_valid, create_checked, create_test,
}

-- What a test must have for `RunStress` and `RunRefund` not to divide by zero.
abbrev pub IsRunnable : StressTest → Type 0
IsRunnable test =
    (int_le test.request_per_second (pos 0) ≡ false)
    × ((bytes_eq test.test_type test_type_sale && int_le test.test_time_secs (pos 0)) ≡ false)

abbrev IfSome : Option StressTest → Type 0
IfSome none = Unit
IfSome (some test) = IsRunnable test

or_false : (a b : Bool) → (a || b) ≡ false → (a ≡ false) × (b ≡ false)
or_false true b h = cc
or_false false b h = (refl, h)

check_rate-IsRunnable : (req : StressTest) → IfSome (check_rate req)
unfolding check_rate
check_rate-IsRunnable req =
    by_test
      (int_le req.request_per_second (pos 0)
        || (bytes_eq req.test_type test_type_sale && int_le req.test_time_secs (pos 0)))
      refl
  where
    by_test :
        (b : Bool)
        → (int_le req.request_per_second (pos 0)
            || (bytes_eq req.test_type test_type_sale && int_le req.test_time_secs (pos 0)))
          ≡ b
        → IfSome (if b then none else some req)
    by_test true e = tt
    by_test false e =
        or_false (int_le req.request_per_second (pos 0))
          (bytes_eq req.test_type test_type_sale && int_le req.test_time_secs (pos 0)) e

check_mode-IsRunnable : (req : StressTest) → IsRunnable req → IfSome (check_mode req)
unfolding check_mode
check_mode-IsRunnable req h = by_tests (bytes_eq req.node_test_mode []) (
    bytes_eq req.node_test_mode node_test_mode_advertised
    || bytes_eq req.node_test_mode node_test_mode_round_robin)
  where
    by_tests :
        (b c : Bool)
        → IfSome (
            if b
            then some (record req { node_test_mode = node_test_mode_advertised })
            else if c
            then some req
            else none)
    by_tests true c = h
    by_tests false true = h
    by_tests false false = tt

and_then-IsRunnable : (o : Option StressTest) → IfSome o → IfSome (and_then o check_mode)
and_then-IsRunnable none h = tt
and_then-IsRunnable (some req) h = check_mode-IsRunnable req h

and_then-check_rate : (o : Option StressTest) → IfSome (and_then o check_rate)
and_then-check_rate none = tt
and_then-check_rate (some req) = check_rate-IsRunnable req

validate-IsRunnable : (req : StressTest) → IfSome (validate req)
unfolding validate
validate-IsRunnable req =
    and_then-IsRunnable (and_then (check_type req) check_rate)
      (and_then-check_rate (check_type req))

undo_reserve : (r : Runner) → r.busy ≡ false → insert_failed (start_insert (reserve r)) ≡ r
unfolding insert_failed start_insert reserve release
undo_reserve r h = by_busy r.busy r.inserting h
  where
    back : (i : ℕ) → i + 1 - 1 ≡ i
    back i = omega arith

    by_busy :
        (b : Bool) (i : ℕ)
        → b ≡ false
        → insert_failed (start_insert (reserve (record r { busy = b; inserting = i })))
          ≡ record r { busy = b; inserting = i }
    by_busy true i e = cc
    by_busy false i e = ap {A = ℕ} (λ n. record r { busy = false; inserting = n }) (back i)

-- The new test is the one that the database and the runner have; the database's time of it is its own.
abbrev pub IsStored : (current_timestamp : ℕ) → App → App → StressTest → Type 0
IsStored current_timestamp app app' test =
    IsRunnable test
    × (get_stress_test app'.tables test.id ≡ ok (record test { created_at = current_timestamp }))
    × (app'.runner.sending ≡ app.runner.sending ++ (test ∷ []))

-- The ids in use are below the next one.
abbrev pub IdsBelow : Tables → Type 0
IdsBelow t = All (λ (row : TestRow). row.id < t.next_test) t.tests

-- How a request ends.
abbrev pub Outcome : (current_timestamp : ℕ) → App → App × Reply StressTest → Type 0
Outcome current_timestamp app (app', success test) = IsStored current_timestamp app app' test
Outcome current_timestamp app (app', bad_request) = app' ≡ app
Outcome current_timestamp app (app', not_found) = app' ≡ app
Outcome current_timestamp app (app', conflict) = app' ≡ app
Outcome current_timestamp app (app', internal_error) = app' ≡ app

no_match :
    (rows : List TestRow) (n : ℕ)
    → All (λ (row : TestRow). row.id < n) rows
    → filter (λ row. row.id == n) rows ≡ []
no_match [] n h = refl
no_match (row ∷ rows) n (h, hs) = rw (different row.id n h, no_match rows n hs) refl
  where
    different : (i n : ℕ) → i < n → (i == n) ≡ false
    different i n h = ground arith

coalesce-null_if_zero : (z : ℤ) → coalesce_zero (null_if_zero_int z) ≡ z
coalesce-null_if_zero (pos zero) = refl
coalesce-null_if_zero (pos (suc n)) = refl
coalesce-null_if_zero (negsuc n) = refl

read-test_row :
    (test : StressTest) → test.total_requests ≡ 0 → read_test (test_row test.id test) ≡ test
unfolding read_test test_row
read-test_row test h =
    ap {A = ℤ} (λ z. record test { total_requests = 0; source_test_id = z })
      (coalesce-null_if_zero test.source_test_id)
    ∙ ap {A = ℕ} (λ n. record test { total_requests = n }) (sym h)

-- A row with a new id is the one that is found under it.
get-test_row :
    (t : Tables) (rows : List TestRow) (test : StressTest)
    → All (λ (row : TestRow). row.id < test.id) rows
    → test.total_requests ≡ 0
    → get_stress_test (record t { tests = rows ++ (test_row test.id test ∷ []) }) test.id ≡ ok test
unfolding get_stress_test first_test
get-test_row t rows test ids h =
    let found : filter (λ (row : TestRow). row.id == test.id) (test_row test.id test ∷ [])
        ≡ test_row test.id test ∷ [] =
      unfold test_row in rw (same test.id) refl in
    ap first_test (
      filter-append (λ (row : TestRow). row.id == test.id) rows (test_row test.id test ∷ [])
      ∙ ap (λ l. l ++ filter (λ (row : TestRow). row.id == test.id) (test_row test.id test ∷ []))
          (no_match rows test.id ids)
      ∙ found)
    ∙ ap ok (read-test_row test h)
  where
    same : (i : ℕ) → (i == i) ≡ true
    same i = ground arith

start-sending : (r : Runner) → r.busy ≡ false → (start_insert (reserve r)).sending ≡ r.sending
unfolding start_insert reserve
start-sending r h = rw h refl

insert_test-Outcome :
    (accepted : Bool) (current_timestamp now : ℕ) (req : StressTest) (app : App)
    → IdsBelow app.tables
    → IsRunnable req
    → app.runner.busy ≡ false
    → Outcome current_timestamp app (
        insert_test accepted current_timestamp now req
          (record app { runner = start_insert (reserve app.runner) }))
unfolding insert_test create_stress_test send_test
insert_test-Outcome true current_timestamp now req app ids h free =
    let test = record req { id = app.tables.next_test; created_at = now; total_requests = 0 } in
    (
      h,
      get-test_row (record app.tables { next_test = app.tables.next_test + 1 }) app.tables.tests
          (record test { created_at = current_timestamp }) ids refl,
      ap (λ l. l ++ (test ∷ [])) (start-sending app.runner free),
    )
insert_test-Outcome false current_timestamp now req app ids h free =
    ap {A = Runner} (λ r. record app { runner = r }) (undo_reserve app.runner free)

reserved-busy : (r : Runner) → (reserve r).1 ≡ true → r.busy ≡ false
unfolding reserve
reserved-busy r e = ground arith

create_valid-Outcome :
    (accepted : Bool) (current_timestamp now : ℕ) (req : StressTest) (app : App)
    → IdsBelow app.tables
    → IsRunnable req
    → Outcome current_timestamp app (create_valid accepted current_timestamp now req app)
unfolding create_valid
create_valid-Outcome accepted current_timestamp now req app ids h =
    by_reserve ((reserve app.runner).1) (reserved-busy app.runner)
  where
    by_reserve :
        (b : Bool)
        → (b ≡ true → app.runner.busy ≡ false)
        → Outcome current_timestamp app (create_reserved accepted current_timestamp now req app b)
    by_reserve true free =
        unfold create_reserved in
        insert_test-Outcome accepted current_timestamp now req app ids h (free refl)
    by_reserve false free = unfold create_reserved in refl

create_checked-Outcome :
    (accepted : Bool) (current_timestamp now : ℕ) (o : Option StressTest) (app : App)
    → IdsBelow app.tables
    → IfSome o
    → Outcome current_timestamp app (create_checked accepted current_timestamp now o app)
unfolding create_checked
create_checked-Outcome accepted current_timestamp now none app ids h = refl
create_checked-Outcome accepted current_timestamp now (some req) app ids h =
    create_valid-Outcome accepted current_timestamp now req app ids h

-- For every body, with the ids of the tests below the next one: a request that is answered with a test
-- has a rate above 0 and, for a sale test, a time above 0; for its id the database gives this test, but
-- for the time of creation, which the engine has set, and it is the one that waits for the runner. After any other answer, the tables and the runner
-- are as they were, the reservation included.
pub create_test-Outcome :
    (accepted : Bool) (current_timestamp now : ℕ) (body : Option StressTest) (app : App)
    → IdsBelow app.tables
    → Outcome current_timestamp app (create_test accepted current_timestamp now body app)
unfolding create_test
create_test-Outcome accepted current_timestamp now none app ids = refl
create_test-Outcome accepted current_timestamp now (some req) app ids =
    create_checked-Outcome accepted current_timestamp now (validate req) app ids
      (validate-IsRunnable req)
