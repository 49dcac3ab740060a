-- ===== src/Network/Clients/Events/Bounded.antt =====
-- The write channels of all connections of the server, whatever steps it takes.
use mathlib.Core.Path.{subst}
use longclaw.Base.{
  ℕ, ◌≤◌, ◌≡◌, refl, sym, ap, arith, Bool, true, false, not, ◌&&◌, Option, none, some, Bytes,
  length, ◌==◌, if◌then◌else◌, update, inl, inr, Bool-cases, ok, err, panic, ok-injective,
}
use longclaw.Base.Dict.{load, delete}
use longclaw.Iso.Spec.{IsoSpec}
use longclaw.Network.Response.{Env}
use longclaw.Network.Conn.{Conn, close, try_queue, write_channel_size, answer_message}
use longclaw.Network.Conn.Sound.{Step-IsSound}
use longclaw.Network.Conn.Sound.Queue.{IsSound, try_queue-IsSound}
use longclaw.Network.Conn.Sound.Sending.{send_single_message-IsSound, send_refund-IsSound}
use longclaw.Network.Conn.Probe.{begin_test, write_test, finish_test}
use longclaw.Network.Clients.{
  Server, client_not_found, write_channel_full, is_conn, register_conn, remove_conn, close_conn,
  get_conn, queue_raw, send_message,
}
use longclaw.Network.Clients.Connections.Closed.{close_cases}
use longclaw.Network.Clients.Events.{
  new_conn, settle, Move, steps, stresses, refunds, begins_test, writes_test, ends_test, shares,
  Event, connects, moves, sends, closes, Reachable, starts, later,
}
use longclaw.Network.Admission.{Arrival, handle_new_connect}
use longclaw.Network.Admission.Checked.{handle_new_connect-IsWelcome}

abbrev pub IsBounded : Conn → Type 0
IsBounded c = length c.write_channel ≤ write_channel_size

abbrev HeapBounded : (ℕ → Option Conn) → Type 0
HeapBounded heap = (conn : ℕ) (c : Conn) → heap conn ≡ some c → IsBounded c

-- Of every connection, registered or not.
abbrev pub AllBounded : Server → Type 0
AllBounded s = HeapBounded s.heap

-- Any bounded connection is sound, for some messages counted elsewhere and some frames of other origin.
bounded-IsSound : (c : Conn) → IsBounded c → IsSound c.sent_count (length c.socket) c
bounded-IsSound c h = record { bounded = h; counted = omega arith }

write_test-IsBounded :
    (format_string : Bytes) (written : Bool) (c : Conn)
    → IsBounded c
    → IsBounded (write_test format_string written c).0
unfolding write_test
write_test-IsBounded format_string true c h = h
write_test-IsBounded format_string false c h = h

module _ {spec : IsoSpec} {env : Env} where
  Move-IsBounded : (c c' : Conn) → Move spec env c c' → IsBounded c → IsBounded c'
  Move-IsBounded c c' (steps step) h =
      (Step-IsSound {c = c} {c' = c'} step (bounded-IsSound c h)).bounded
  Move-IsBounded c c' (stresses test created_at now reference template card e) h =
      (send_single_message-IsSound spec test created_at now reference template card c c' e
        (bounded-IsSound c h)).bounded
  Move-IsBounded c c' (refunds test now transmitted reference original e) h =
      (send_refund-IsSound spec test now transmitted reference original c c' e
        (bounded-IsSound c h)).bounded
  Move-IsBounded c c' (begins_test format_string e) h = subst IsBounded e (unfold begin_test in h)
  Move-IsBounded c c' (writes_test format_string written e) h =
      subst IsBounded e (write_test-IsBounded format_string written c h)
  Move-IsBounded c c' (ends_test format_string e) h = subst IsBounded e (unfold finish_test in h)
  Move-IsBounded c c' (shares shared e) h = subst IsBounded (sym e) h

update-HeapBounded :
    (heap : ℕ → Option Conn) (conn : ℕ) (c : Conn)
    → IsBounded c
    → HeapBounded heap
    → HeapBounded (update heap conn c)
update-HeapBounded heap conn c h all b c' found = elim (Bool-cases (conn == b)) [
  | inl same ↦ subst IsBounded (some-injective (rw same at found)) h
  | inr different ↦ all b c' (rw different at found)
]
  where
    some-injective : {a b : Conn} → some a ≡ some b → a ≡ b
    some-injective h = cc

close_conn-AllBounded :
    (id : Bytes) (conn : ℕ) (s : Server) → AllBounded s → AllBounded (close_conn id conn s)
unfolding close
close_conn-AllBounded id conn s all =
    close_cases id conn s AllBounded (λ h. all)
      (λ c found h. update-HeapBounded s.heap conn (close c) (all conn c found) all)
      (λ c found h. update-HeapBounded s.heap conn (close c) (all conn c found) all)

settle-AllBounded :
    (id : Bytes) (conn : ℕ) (c c' : Conn) (s : Server)
    → IsBounded c'
    → AllBounded s
    → AllBounded (settle id conn c c' s)
unfolding settle remove_conn
settle-AllBounded id conn c c' s h all =
    by_tests (not c.closed && c'.closed) (is_conn conn (load id s.conn_map))
  where
    by_tests :
        (closes here : Bool)
        → AllBounded (
            let moved : Server = record s { heap = update s.heap conn c' } in
            if closes
            then (if here then record moved { conn_map = delete id moved.conn_map } else moved)
            else moved)
    by_tests true true = update-HeapBounded s.heap conn c' h all
    by_tests true false = update-HeapBounded s.heap conn c' h all
    by_tests false here = update-HeapBounded s.heap conn c' h all

send_message-AllBounded :
    (id raw_msg : Bytes) (s t : Server)
    → send_message id raw_msg s ≡ ok t
    → AllBounded s
    → AllBounded t
unfolding send_message queue_raw
send_message-AllBounded id raw_msg s t e all = by_conn (get_conn s id) e
  where
    by_room :
        (conn : ℕ) (c : Conn) (o : Option Conn)
        → s.heap conn ≡ some c
        → try_queue (answer_message raw_msg) c ≡ o
        → (elim o [
          | some c' ↦ ok (record s { heap = update s.heap conn c' })
          | none ↦ err (write_channel_full id)
        ])
          ≡ ok t
        → AllBounded t
    by_room conn c none h q e = cc
    by_room conn c (some c') h q e = subst AllBounded (ok-injective e) (
        update-HeapBounded s.heap conn c'
          (try_queue-IsSound (answer_message raw_msg) c c' q
            (bounded-IsSound c (all conn c h))).bounded
          all)

    by_heap :
        (conn : ℕ) (o : Option Conn)
        → s.heap conn ≡ o
        → (elim o [ none ↦ panic | some c ↦ queue_raw id raw_msg conn s c ]) ≡ ok t
        → AllBounded t
    by_heap conn none h e = cc
    by_heap conn (some c) h e = by_room conn c (try_queue (answer_message raw_msg) c) h refl e

    by_conn :
        (o : Option ℕ)
        → (elim o [
          | none ↦ err (client_not_found id)
          | some conn ↦ elim (s.heap conn) [ none ↦ panic | some c ↦ queue_raw id raw_msg conn s c ]
        ])
          ≡ ok t
        → AllBounded t
    by_conn none e = cc
    by_conn (some conn) e = by_heap conn (s.heap conn) refl e

module _ (remote_addr : ℕ → Bytes) (spec : IsoSpec) (env : Env) where
  connect-AllBounded :
      (expected_cn : Bytes) (arrival : Arrival) (id : Bytes) (conn : Conn) (s : Server)
      → IsBounded conn
      → AllBounded s
      → AllBounded (handle_new_connect expected_cn arrival id conn s).0
  connect-AllBounded expected_cn arrival id conn s h all =
      elim (handle_new_connect-IsWelcome expected_cn arrival id conn s) [
        | inl (welcome, e) ↦
            subst AllBounded (ap server_of (sym e))
              (unfold register_conn in update-HeapBounded s.heap s.fresh conn h all)
        | inr (rude, e) ↦ subst AllBounded (ap server_of (sym e)) all
      ]
    where
      server_of : Server × Bool → Server
      server_of (server, kept) = server

  Event-AllBounded : (s t : Server) → Event spec env remote_addr s t → AllBounded s → AllBounded t
  Event-AllBounded s t (connects expected_cn arrival shared e) all = subst AllBounded (sym e) (
      connect-AllBounded expected_cn arrival (remote_addr s.fresh)
        (new_conn (remote_addr s.fresh) shared) s (unfold new_conn in omega arith) all)
  Event-AllBounded s t (moves conn c c' found move e) all = subst AllBounded (sym e) (
      settle-AllBounded (remote_addr conn) conn c c' s (Move-IsBounded c c' move (all conn c found))
        all)
  Event-AllBounded s t (sends id raw_msg e) all = send_message-AllBounded id raw_msg s t e all
  Event-AllBounded s t (closes conn e) all =
      subst AllBounded (sym e) (close_conn-AllBounded (remote_addr conn) conn s all)

  pub Reachable-AllBounded : (s : Server) → Reachable spec env remote_addr s → AllBounded s
  Reachable-AllBounded s starts = λ conn c e. cc
  Reachable-AllBounded t (later {s} before event) =
      Event-AllBounded s t event (Reachable-AllBounded s before)
