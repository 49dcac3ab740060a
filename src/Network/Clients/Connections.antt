-- ===== src/Network/Clients/Connections.antt =====
-- `connections`, `GetConnectedClients`, `TestConnection` and `Stop` of network/server/iso_server.go. The order in
-- which Go visits the map is an argument, `order`: its keys.
pub mod Closed
pub mod Stopped
pub mod Shut
use longclaw.Base.{
  ℕ, ◌≡◌, refl, ap, Bool, true, not, Option, none, some, List, [], ◌∷◌, map, foldl, filter, All,
  Bytes, bytes_eq, if◌then◌else◌, Go, ok, err, panic,
}
use longclaw.Base.Order.{bytes_le, bytes_le-IsOrder}
use longclaw.Base.Sort.{sort, IsSorted, sort-IsSorted, sort-Permᴰ}
use longclaw.Network.Clients.{Server, get_conn, close_conn}

-- A connection with the client that its `onClose` removes.
unfoldable pub add_known : Server → Bytes → List (Bytes × ℕ) → List (Bytes × ℕ)
add_known server id rest = elim (get_conn server id) [ none ↦ rest | some conn ↦ (id, conn) ∷ rest ]

unfoldable pub known : Server → List Bytes → List (Bytes × ℕ)
unfolding add_known
known server [] = []
known server (id ∷ ids) = add_known server id (known server ids)

unfoldable pub connections : List Bytes → Server → List (Bytes × ℕ)
unfolding known
connections order server = known server (sort bytes_le order)

unfoldable pub get_connected_clients : List Bytes → List Bytes
get_connected_clients order = filter (λ key. not (bytes_eq key [])) order

-- How a connection test ends.
pub data TestStatus : Type 0 where
  passed : TestStatus
  failed : TestStatus
  in_progress : TestStatus

pub data TestError : Type 0 where
  not_connected : TestError

abbrev pub tested : Bytes → ℕ → TestStatus → Server → Server
tested id conn passed server = server
tested id conn in_progress server = server
tested id conn failed server = close_conn id conn server

-- A client whose test fails is closed; `status` is the end of the test of its connection.
unfoldable pub test_connection : Bytes → TestStatus → Server → Go TestError Server
test_connection id status server = elim (get_conn server id) [
  | none ↦ err not_connected
  | some conn ↦ ok (tested id conn status server)
]

unfoldable pub close_all : List (Bytes × ℕ) → Server → Server
unfolding close_conn
close_all [] server = server
close_all ((id, conn) ∷ conns) server = close_all conns (close_conn id conn server)

-- The listener is the TLS library's.
unfoldable pub stop : List Bytes → Server → Server
unfolding connections close_all
stop order server = close_all (connections order server) server
