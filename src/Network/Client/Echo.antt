-- ===== src/Network/Client/Echo.antt =====
-- A connection test (network/server/iso_server.go) against the test client (network/client/iso_client.go).
use longclaw.Base.{
  slice, slice-ok, ◌∙◌, ◌≡◌, refl, sym, ap, arith, Bool, true, false, Option, none, some, [], ◌∷◌,
  ◌++◌, Bytes, codes, bytes_eq_refl, length, take-append, length-append, leb, ltb, Go, ok, err,
}
use longclaw.Base.Dict.{Dict, load, store, delete}
use longclaw.Iso.Spec.{IsoSpec}
use longclaw.Network.Mti.{response_mti}
use longclaw.Network.Frame.{frame}
use longclaw.Network.Conn.{Conn, Times, Stuck, deliver, waiting_test, handle_message}
use longclaw.Network.Conn.Probe.{
  ProbeError, test_in_progress, write_failed, echo_request, check_idle, begin_test, write_test,
  is_echo, finish_test,
}
use longclaw.Network.Client.{reply, client_loop}
use longclaw.Network.Client.Exchange.{client_loop_one}

-- The answer to the echo request.
abbrev echo_answer : Bytes → Bytes
echo_answer format_string =
    codes "081082200000000000000400000000000000" ++ (format_string ++ codes "026612361")

reply-echo_request :
    (format_string : Bytes) → reply (echo_request format_string) ≡ some (echo_answer format_string)
unfolding reply echo_request response_mti
reply-echo_request format_string = refl

stan-echo_answer :
    (format_string : Bytes)
    → length format_string ≡ 10
    → slice {E = Stuck} (echo_answer format_string) 36 46 ≡ ok format_string
stan-echo_answer format_string h =
    let e = length-append format_string (codes "026612361") in
    slice-ok {E = Stuck} (echo_answer format_string) 36 46 10 refl (omega (arith, e, h))
    ∙ ap {A = Bytes} ok (take-append format_string (codes "026612361") 10 (sym h))

length-echo_answer :
    (format_string : Bytes) → length format_string ≡ 10 → length (echo_answer format_string) ≡ 55
length-echo_answer format_string h =
    let e = length-append format_string (codes "026612361") in omega (arith, e, h)

length-echo_request :
    (format_string : Bytes) → length format_string ≡ 10 → length (echo_request format_string) ≡ 55
unfolding echo_request
length-echo_request format_string h = length-echo_answer format_string h

-- The channel of the test that runs, with what is in it.
abbrev waiting : Bytes → Option Bytes → Dict (Option Bytes)
waiting format_string answer = (format_string, answer) ∷ []

load-waiting :
    (format_string : Bytes) (answer : Option Bytes)
    → load format_string (waiting format_string answer) ≡ some answer
unfolding load
load-waiting format_string answer = rw (bytes_eq_refl format_string) refl

store-waiting :
    (format_string : Bytes) (answer new : Option Bytes)
    → store format_string new (waiting format_string answer) ≡ waiting format_string new
unfolding store
store-waiting format_string answer new = rw (bytes_eq_refl format_string) refl

delete-waiting :
    (format_string : Bytes) (answer : Option Bytes)
    → delete format_string (waiting format_string answer) ≡ []
unfolding delete
delete-waiting format_string answer = rw (bytes_eq_refl format_string) refl

begin_test-idle :
    (format_string : Bytes) (c : Conn)
    → c.conn_tests ≡ []
    → begin_test format_string c ≡ record c { conn_tests = waiting format_string none }
unfolding begin_test store
begin_test-idle format_string c idle = rw (begin_test, idle) refl

waiting_test-answer :
    (format_string : Bytes) (c : Conn)
    → length format_string ≡ 10
    → c.conn_tests ≡ waiting format_string none
    → waiting_test (codes "0810") (echo_answer format_string) c ≡ ok (some (format_string, none))
unfolding waiting_test
waiting_test-answer format_string c h tests =
    let long : leb 46 (length (echo_answer format_string)) ≡ true =
      rw (length-echo_answer format_string h) refl in
    rw
      (waiting_test, tests, stan-echo_answer format_string h, long, load-waiting format_string none)
      refl

handle_message-answer :
    (spec : IsoSpec) (times : Times) (format_string : Bytes) (c : Conn)
    → length format_string ≡ 10
    → c.conn_tests ≡ waiting format_string none
    → handle_message spec times (echo_answer format_string) c
      ≡ ok (record c { conn_tests = waiting format_string (some (echo_answer format_string)) })
unfolding handle_message deliver
handle_message-answer spec times format_string c h tests =
    let enough : ltb (length (echo_answer format_string)) 20 ≡ false =
      rw (length-echo_answer format_string h) refl in
    let read =
      slice-ok {E = Stuck} (echo_answer format_string) 0 4 4 refl
        (let e = length-echo_answer format_string h in omega (arith, e)) in
    rw
      (
        handle_message,
        enough,
        read,
        waiting_test-answer format_string c h tests,
        deliver,
        tests,
        store-waiting format_string none (some (echo_answer format_string)),
      )
      refl

finish_test-answer :
    (format_string : Bytes) (c : Conn)
    → c.conn_tests ≡ waiting format_string (some (echo_answer format_string))
    → finish_test format_string c ≡ (record c { conn_tests = [] }, ok true)
unfolding finish_test is_echo
finish_test-answer format_string c tests =
    rw
      (
        finish_test,
        tests,
        load-waiting format_string (some (echo_answer format_string)),
        delete-waiting format_string (some (echo_answer format_string)),
      )
      refl

-- On a connection with no test, for a time of ten digits, step by step: the test finds no other one and stores its
-- channel, so that a later check finds it; the echo request is written to the socket; the test client
-- answers it with one frame; when the server reads that, whatever the specification, it goes to the
-- test, which ends with success, and a check finds no test again. If the write fails instead, the
-- connection is as it was before the test.
pub write_test-finish_test :
    (spec : IsoSpec) (times : Times) (format_string : Bytes) (c : Conn)
    → length format_string ≡ 10
    → c.conn_tests ≡ []
    → let begun = begin_test format_string c in
      let (waits, sent) = write_test format_string true begun in
      (check_idle c ≡ ok tt)
      × (check_idle begun ≡ err test_in_progress)
      × (sent ≡ ok tt)
      × (waits.socket ≡ c.socket ++ (frame (echo_request format_string) ∷ []))
      × (answer : Bytes) × (answered : Conn) × (client_loop 1 (frame (echo_request format_string))
          ≡ frame answer ∷ [])
      × (handle_message spec times answer waits ≡ ok answered)
      × ((finish_test format_string answered).1 ≡ ok true)
      × (check_idle (finish_test format_string answered).0 ≡ ok tt)
      × (write_test format_string false begun ≡ (c, err write_failed))
unfolding check_idle write_test
write_test-finish_test spec times format_string c h idle =
    let stored = begin_test-idle format_string c idle in
    let waits : Conn = record c {
      conn_tests = waiting format_string none;
      socket = c.socket ++ (frame (echo_request format_string) ∷ []);
    } in
    let answered : Conn = record waits {
      conn_tests = waiting format_string (some (echo_answer format_string));
    } in
    let ended = finish_test-answer format_string answered refl in
    (
      rw (check_idle, idle) refl,
      rw (check_idle, stored) refl,
      refl,
      rw stored refl,
      echo_answer format_string,
      answered,
      client_loop_one (echo_request format_string) (echo_answer format_string)
          (omega (arith, length-echo_request format_string h)) (reply-echo_request format_string),
      rw stored (handle_message-answer spec times format_string waits h refl),
      ap (λ (r : Conn × Go ProbeError Bool). r.1) ended,
      ap (λ (r : Conn × Go ProbeError Bool). check_idle r.0) ended,
      ap (λ (d : Conn). write_test format_string false d) stored
          ∙ ap
              (λ (tests : Dict (Option Bytes)). (record c { conn_tests = tests }, err write_failed))
              (delete-waiting format_string none ∙ sym idle),
    )
