-- ===== src/Network/Clients/Events.antt =====
-- The server of network/server/iso_server.go as a step relation: `NewIsoServer`, the clients that
-- `HandleNewConnect` takes, the goroutines of their connections, `SendMessage` and `Close`, in any order.
pub mod Entries
pub mod Bounded
pub mod Invariant
pub mod Refinement
use longclaw.Base.{
  ℕ, ◌≡◌, Bool, true, false, not, ◌&&◌, some, none, [], Bytes, if◌then◌else◌, Go, ok, err, update,
}
use longclaw.Database.{Writer}
use longclaw.Database.Refunds.{RefundCandidate}
use longclaw.Network.Load.{Card, IsoMsgTemplate, send_single_message}
use longclaw.Network.Refund.{send_refund}
use longclaw.Iso.Spec.{IsoSpec}
use longclaw.Network.Response.{Env}
use longclaw.Network.Conn.{Conn}
use longclaw.Network.Conn.Steps.{Step}
use longclaw.Network.Conn.Probe.{begin_test, write_test, finish_test}
use longclaw.Network.Clients.{Server, remove_conn, close_conn, send_message}
use longclaw.Network.Admission.{Arrival, handle_new_connect}

abbrev pub new_iso_server : Server
new_iso_server = record { conn_map = []; heap = λ conn. none; fresh = 0 }

-- What a new connection shares with the others.
pub record Shared : Type 0 where
  pub db : Writer
  pub sent_count : ℕ
  pub dropped_count : ℕ
  pub unmatched_count : ℕ

unfoldable pub new_conn : Bytes → Shared → Conn
new_conn remote_addr shared = record {
  connection_id = remote_addr;
  write_channel = [];
  sent_times = [];
  follow_ups = [];
  conn_tests = [];
  responding = [];
  socket = [];
  closed = false;
  db = shared.db;
  sent_count = shared.sent_count;
  dropped_count = shared.dropped_count;
  unmatched_count = shared.unmatched_count;
}

-- One step of a connection: of its goroutines, of the load generator, of a connection test, or of another
-- connection that shares the queue of the database and the counters.
pub data Move (spec : IsoSpec) (env : Env) (c c' : Conn) : Type 0 where
  steps : Step spec env c c' → Move spec env c c'
  stresses :
      (stress_test_id created_at now : ℕ) (reference : Bytes) (template : IsoMsgTemplate)
      (card : Card)
      → send_single_message spec stress_test_id created_at now reference template card c ≡ ok c'
      → Move spec env c c'
  refunds :
      (stress_test_id now : ℕ) (transmitted reference : Bytes) (original : RefundCandidate)
      → send_refund spec stress_test_id now transmitted reference original c ≡ ok c'
      → Move spec env c c'
  begins_test : (format_string : Bytes) → begin_test format_string c ≡ c' → Move spec env c c'
  writes_test :
      (format_string : Bytes) (written : Bool)
      → (write_test format_string written c).0 ≡ c'
      → Move spec env c c'
  ends_test : (format_string : Bytes) → (finish_test format_string c).0 ≡ c' → Move spec env c c'
  shares :
      (shared : Shared)
      → c' ≡ record c {
        db = shared.db;
        sent_count = shared.sent_count;
        dropped_count = shared.dropped_count;
        unmatched_count = shared.unmatched_count;
      }
      → Move spec env c c'

-- A connection that closes runs its `onClose`, the first time only.
unfoldable pub settle : Bytes → ℕ → Conn → Conn → Server → Server
unfolding remove_conn
settle client_id conn c c' server =
    let moved : Server = record server { heap = update server.heap conn c' } in
    if not c.closed && c'.closed then remove_conn client_id conn moved else moved

-- `remote_addr` has the address of each connection's client.
module _ (spec : IsoSpec) (env : Env) (remote_addr : ℕ → Bytes) where
  pub data Event (s t : Server) : Type 0 where
    connects :
        (expected_cn : Bytes) (arrival : Arrival) (shared : Shared)
        → t
          ≡ (handle_new_connect expected_cn arrival
              (remote_addr s.fresh)
              (new_conn (remote_addr s.fresh) shared)
              s).0
        → Event s t
    moves :
        (conn : ℕ) (c c' : Conn)
        → s.heap conn ≡ some c
        → Move spec env c c'
        → t ≡ settle (remote_addr conn) conn c c' s
        → Event s t
    sends : (client_id raw_msg : Bytes) → send_message client_id raw_msg s ≡ ok t → Event s t
    closes : (conn : ℕ) → t ≡ close_conn (remote_addr conn) conn s → Event s t

  pub data Reachable : Server → Type 0 where
    starts : Reachable new_iso_server
    later : {s t : Server} → Reachable s → Event s t → Reachable t
