-- ===== src/Tests/Runs.antt =====
-- The runner, a request for a test, and the loops of the two kinds of test.
use longclaw.Base.{
  ℕ, ◌%◌, ◌≤◌, ◌≡◌, ◌⊎◌, refl, arith, true, false, some, List, [], ◌∷◌, ◌++◌, map, length,
  get_elem?, codes, ok, pos,
}
use longclaw.Database.{Writer, set_total_requests}
use longclaw.Database.StressTests.{StressTest}
use longclaw.Database.Refunds.{RefundCandidate}
use longclaw.Runner.{Runner, new_runner, reserve, start_insert, send_test}
use longclaw.Runner.Steps.{start, request, stay, go, sends, CanGoOn, Reachable-frees}
use longclaw.Handlers.{App, create_test}
use longclaw.Handlers.Created.{Outcome, create_test-Outcome}
use longclaw.Network.Pacing.{written, run_ticks, run_refund}
use longclaw.Network.Pacing.Due.{most, paced, run_ticks-most}
use longclaw.Network.Pacing.Refunding.{upto, run_refund-IsDealt}

abbrev sample_request : StressTest
sample_request = record {
  id = 0;
  name = codes "sales";
  created_at = 0;
  total_requests = 0;
  test_time_secs = pos 10;
  request_per_second = pos 5;
  node_test_mode = [];
  test_type = [];
  source_test_id = pos 0;
}

-- A request has the reservation; its test goes to the channel.
abbrev reserved_runner : Runner
reserved_runner = start_insert (reserve new_runner)

Reachable-frees_example :
    (1 ≤ 3)
    × (((send_test sample_request reserved_runner).busy ≡ false)
        ⊎ CanGoOn (send_test sample_request reserved_runner))
Reachable-frees_example =
    Reachable-frees reserved_runner (send_test sample_request reserved_runner) 1 sample_request
      (request new_runner start)
      (go 0 reserved_runner (send_test sample_request reserved_runner)
        (send_test sample_request reserved_runner)
        (sends reserved_runner sample_request
          (unfold start_insert reserve new_runner in omega arith))
        (stay (send_test sample_request reserved_runner)))

abbrev sample_app : App
sample_app = record {
  runner = new_runner;
  tables = record {
    tests = [];
    log = [];
    scheduled = [];
    next_test = 1;
    next_row = 1;
    next_scheduled = 1;
  };
}

create_test-Outcome_example :
    Outcome 6 sample_app (create_test true 6 7 (some sample_request) sample_app)
create_test-Outcome_example = create_test-Outcome true 6 7 (some sample_request) sample_app tt

abbrev two_conns : List ℕ
two_conns = 10 ∷ 11 ∷ []

-- Three ticks, the second of which brings nothing new.
run_ticks-most_example :
    run_ticks (codes "round_robin") (map (λ due. (due, two_conns)) (2 ∷ 2 ∷ 5 ∷ []))
    ≡ paced (codes "round_robin") two_conns (most 0 (2 ∷ 2 ∷ 5 ∷ []))
run_ticks-most_example = run_ticks-most (codes "round_robin") two_conns (2 ∷ 2 ∷ 5 ∷ [])

abbrev sample_candidates : List RefundCandidate
sample_candidates =
    record { log_id = 1; reference = codes "1"; request_message = codes "0100" }
    ∷ record { log_id = 2; reference = codes "2"; request_message = codes "0100" }
    ∷ record { log_id = 3; reference = codes "3"; request_message = codes "0100" }
    ∷ []

abbrev open_writer : Writer
open_writer = record { writes = []; done = false }

run_refund-IsDealt_example :
    (sends : List (ℕ × RefundCandidate)) × (run_refund sample_request
        (ok sample_candidates)
        two_conns
        ((1 ∷ []) ++ (4 ∷ []))
        open_writer
      ≡ ok (
          some (
            sends,
            written open_writer
                (set_total_requests open_writer sample_request.id (length sample_candidates)),
          )))
    × (map (λ send. send.1) sends ≡ sample_candidates)
    × (map (λ send. some (send.0)) sends
        ≡ map (λ i. get_elem? two_conns (i % length two_conns)) (upto (length sample_candidates)))
run_refund-IsDealt_example =
    run_refund-IsDealt sample_request sample_candidates 10 (11 ∷ []) (1 ∷ []) [] 4 open_writer refl
      (omega arith)
