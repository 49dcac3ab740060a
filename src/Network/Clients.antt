-- ===== src/Network/Clients.antt =====
-- The connection map of `IsoServer` (network/server/iso_server.go). A connection is its address in a heap
-- of connections, because `removeConn` compares pointers.
pub mod Registry
pub mod Connections
pub mod Events
use longclaw.Base.{
  ℕ, ◌+◌, ◌<◌, Bool, false, Option, none, some, panic, List, [], ◌∷◌, Bytes, bytes_eq, ltb, ◌==◌,
  ◌||◌, ◌&&◌, if◌then◌else◌, Go, ok, err, update,
}
use longclaw.Base.Dict.{Dict, load, store, delete}
use longclaw.Network.Conn.{Conn, try_queue, answer_message, close}

pub record Server : Type 0 where
  pub conn_map : Dict ℕ
  pub heap : ℕ → Option Conn
  pub fresh : ℕ

unfoldable pub get_conn : Server → Bytes → Option ℕ
get_conn server client_id = load client_id server.conn_map

-- `HandleNewConnect` behind its checks: a client with the same address takes the entry over.
unfoldable pub register_conn : Bytes → Conn → Server → Server
register_conn client_id conn server = record server {
  conn_map = store client_id server.fresh server.conn_map;
  heap = update server.heap server.fresh conn;
  fresh = server.fresh + 1;
}

abbrev pub is_conn : ℕ → Option ℕ → Bool
is_conn conn none = false
is_conn conn (some other) = other == conn

-- The entry goes only if it still stands for this connection.
unfoldable pub remove_conn : Bytes → ℕ → Server → Server
remove_conn client_id conn server =
    if is_conn conn (load client_id server.conn_map)
    then record server { conn_map = delete client_id server.conn_map }
    else server

unfoldable pub close_heap : ℕ → Option Conn → Server → Server
close_heap conn none server = server
close_heap conn (some c) server = record server { heap = update server.heap conn (close c) }

-- `Close` with the server's `onClose`; the second call does nothing.
unfoldable pub close_conn : Bytes → ℕ → Server → Server
unfolding close_heap remove_conn
close_conn client_id conn server = elim (server.heap conn) [
  | none ↦ server
  | some c ↦
      if c.closed then server else remove_conn client_id conn (close_heap conn (some c) server)
]

pub data SendError : Type 0 where
  client_not_found : Bytes → SendError
  write_channel_full : Bytes → SendError

unfoldable pub queue_raw : Bytes → Bytes → ℕ → Server → Conn → Go SendError Server
queue_raw client_id raw_msg conn server c = elim (try_queue (answer_message raw_msg) c) [
  | some c' ↦ ok (record server { heap = update server.heap conn c' })
  | none ↦ err (write_channel_full client_id)
]

-- A registered connection is in the heap; one that is not would be a null pointer.
unfoldable pub send_message : Bytes → Bytes → Server → Go SendError Server
unfolding queue_raw get_conn
send_message client_id raw_msg server = elim (get_conn server client_id) [
  | none ↦ err (client_not_found client_id)
  | some conn ↦ elim (server.heap conn) [
    | none ↦ panic
    | some c ↦ queue_raw client_id raw_msg conn server c
  ]
]
