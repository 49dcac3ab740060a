-- ===== src/Handlers.antt =====
-- The HTTP handlers (handlers/test_handler.go, handlers/message_handler.go, handlers/client_handler.go). The JSON of a
-- request and of a reply is the library's: a request is its value, or `none` if it cannot be decoded.
pub mod Created
pub mod SystemInfo
pub mod Routes
use longclaw.Base.{
  ℕ, zero, suc, ◌+◌, ◌-◌, Bool, true, false, not, ◌&&◌, ◌||◌, Option, none, some, List, [], ◌∷◌,
  ◌++◌, Bytes, codes, bytes_eq, if◌then◌else◌, Go, ok, err, panic, ◌>>=◌, ℤ, pos, negsuc,
}
use longclaw.Base.Order.{int_le}
use longclaw.Strconv.{Num, number, not_number, out_of_range, atoi}
use longclaw.Database.Tables.{Tables}
use longclaw.Database.StressTests.{
  StressTest, QueryError, no_rows, not_inserted, create_stress_test,
}
use longclaw.Database.Results.{Ranks, StressTestResults, get_stress_test_results}
use longclaw.Network.Targets.{node_test_mode_round_robin}
use longclaw.Network.Clients.{Server, send_message}
use longclaw.Network.Clients.Connections.{TestStatus, get_connected_clients, test_connection}
use longclaw.Runner.{Runner, reserve, start_insert, insert_failed, send_test}

abbrev pub node_test_mode_advertised : Bytes
node_test_mode_advertised = codes "advertised"

abbrev pub test_type_sale : Bytes
test_type_sale = codes "sale"

abbrev pub test_type_refund : Bytes
test_type_refund = codes "refund"

-- The replies, by their status.
pub data Reply {ℓ} (A : Type ℓ) : Type ℓ where
  success : A → Reply A
  bad_request : Reply A
  not_found : Reply A
  conflict : Reply A
  internal_error : Reply A

-- `switch stressTestReq.TestType`: none is a bad request.
unfoldable pub check_type : StressTest → Option StressTest
check_type req =
    if bytes_eq req.test_type []
    then some (record req { test_type = test_type_sale })
    else if bytes_eq req.test_type test_type_sale
    then some req
    else if bytes_eq req.test_type test_type_refund
    then (if int_le req.source_test_id (pos 0) then none else some req)
    else none

unfoldable pub check_rate : StressTest → Option StressTest
check_rate req =
    if int_le req.request_per_second (pos 0)
      || (bytes_eq req.test_type test_type_sale && int_le req.test_time_secs (pos 0))
    then none
    else some req

-- `switch stressTestReq.NodeTestMode`
unfoldable pub check_mode : StressTest → Option StressTest
check_mode req =
    if bytes_eq req.node_test_mode []
    then some (record req { node_test_mode = node_test_mode_advertised })
    else if bytes_eq req.node_test_mode node_test_mode_advertised
        || bytes_eq req.node_test_mode node_test_mode_round_robin
    then some req
    else none

abbrev pub and_then : Option StressTest → (StressTest → Option StressTest) → Option StressTest
and_then none next = none
and_then (some req) next = next req

unfoldable pub validate : StressTest → Option StressTest
unfolding check_type check_rate check_mode
validate req = and_then (and_then (check_type req) check_rate) check_mode

-- The process as a request sees it.
pub record App : Type 0 where
  pub runner : Runner
  pub tables : Tables

-- Behind a successful `Reserve`.
unfoldable pub insert_test :
    Bool → (current_timestamp now : ℕ) → StressTest → App → App × Reply StressTest
unfolding create_stress_test insert_failed send_test
insert_test accepted current_timestamp now req app =
    elim (create_stress_test accepted current_timestamp now req app.tables) [
      | ok (test, t) ↦ (record { runner = send_test test app.runner; tables = t }, success test)
      | err e ↦ (record app { runner = insert_failed app.runner }, internal_error)
      | panic ↦ (record app { runner = insert_failed app.runner }, internal_error)
    ]

unfoldable pub create_reserved :
    Bool → (current_timestamp now : ℕ) → StressTest → App → Bool → App × Reply StressTest
unfolding insert_test reserve start_insert
create_reserved accepted current_timestamp now req app true =
    insert_test accepted current_timestamp now req
      (record app { runner = start_insert (reserve app.runner) })
create_reserved accepted current_timestamp now req app false = (app, conflict)

unfoldable pub create_valid :
    Bool → (current_timestamp now : ℕ) → StressTest → App → App × Reply StressTest
unfolding create_reserved
create_valid accepted current_timestamp now req app =
    create_reserved accepted current_timestamp now req app ((reserve app.runner).1)

unfoldable pub create_checked :
    Bool → (current_timestamp now : ℕ) → Option StressTest → App → App × Reply StressTest
unfolding create_valid
create_checked accepted current_timestamp now none app = (app, bad_request)
create_checked accepted current_timestamp now (some req) app =
    create_valid accepted current_timestamp now req app

unfoldable pub create_test :
    Bool → (current_timestamp now : ℕ) → Option StressTest → App → App × Reply StressTest
unfolding create_checked validate
create_test accepted current_timestamp now none app = (app, bad_request)
create_test accepted current_timestamp now (some req) app =
    create_checked accepted current_timestamp now (validate req) app

unfoldable pub results_reply :
    Go QueryError StressTestResults → Go QueryError (Reply StressTestResults)
results_reply (ok results) = ok (success results)
results_reply (err no_rows) = ok not_found
results_reply (err not_inserted) = ok internal_error
results_reply panic = panic

-- An id below 0 is no row's.
unfoldable pub get_test_results :
    Ranks → Tables → (now : ℕ) → Bytes → Go QueryError (Reply StressTestResults)
unfolding results_reply get_stress_test_results
get_test_results ranks t now text = elim (atoi text) [
  | number (pos id) ↦ results_reply (get_stress_test_results ranks t now id)
  | number (negsuc n) ↦ ok not_found
  | not_number ↦ ok bad_request
  | out_of_range z ↦ ok bad_request
]

-- `messageTemplates`, at the time `MMDDHHmmss` of which `HHmmss` is the trace number.
unfoldable pub message_template : Bytes → (trandate stan : Bytes) → Option Bytes
message_template message_type trandate stan =
    if bytes_eq message_type (codes "signon")
    then some (
        codes "080082200000000000000400000100000000" ++ (trandate ++ (stan ++ codes "07100022020")))
    else if bytes_eq message_type (codes "signoff")
    then some (
        codes "080082200000000000000400000100000000" ++ (trandate ++ (stan ++ codes "07200022020")))
    else if bytes_eq message_type (codes "echo")
    then some (
        codes "080082200000000000000400000100000000" ++ (trandate ++ (stan ++ codes "27000022020")))
    else none

-- `SendMessage`: the client's id and the kind of message.
unfoldable pub send_template : Bytes → Option Bytes → Server → Server × Reply (Unit {0})
unfolding send_message
send_template client_id none server = (server, bad_request)
send_template client_id (some text) server = elim (send_message client_id text server) [
  | ok server' ↦ (server', success tt)
  | err e ↦ (server, bad_request)
  | panic ↦ (server, internal_error)
]

unfoldable pub handle_send_message :
    Option (Bytes × Bytes) → (trandate stan : Bytes) → Server → Server × Reply (Unit {0})
unfolding send_template message_template
handle_send_message none trandate stan server = (server, bad_request)
handle_send_message (some (client_id, message_type)) trandate stan server =
    send_template client_id (message_template message_type trandate stan) server

-- `GetClients`, with the order in which Go visits the map.
unfoldable pub get_clients : List Bytes → Reply (List Bytes)
unfolding get_connected_clients
get_clients order = success (get_connected_clients order)

-- `TestClient`: only the first client is tested; `order` is that of the map after the test.
unfoldable pub handle_test_client :
    Option (List Bytes) → TestStatus → (order : List Bytes) → Server → Server × Reply (List Bytes)
unfolding test_connection get_clients
handle_test_client none status order server = (server, bad_request)
handle_test_client (some []) status order server = (server, bad_request)
handle_test_client (some (client_id ∷ rest)) status order server =
    elim (test_connection client_id status server) [
      | ok server' ↦ (server', get_clients order)
      | err e ↦ (server, bad_request)
      | panic ↦ (server, internal_error)
    ]
