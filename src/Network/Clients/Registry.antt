-- ===== src/Network/Clients/Registry.antt =====
-- A client that connects again is not lost when its old connection closes.
use longclaw.Base.{
  ℕ, ◌<◌, ◌≡◌, ◌≢◌, ◌∙◌, refl, ap, arith, Bool, true, false, Option, none, some, Bytes,
  bytes_eq_refl, ◌==◌, if◌then◌else◌,
}
use longclaw.Base.Dict.{load, load-store}
use longclaw.Network.Conn.{Conn}
use longclaw.Network.Clients.{Server, get_conn, register_conn, remove_conn, close_heap, close_conn}

remove_conn-stale :
    (client_id : Bytes) (old new : ℕ) (server : Server)
    → load client_id server.conn_map ≡ some new
    → new ≢ old
    → remove_conn client_id old server ≡ server
unfolding remove_conn
remove_conn-stale client_id old new server e ne =
    let differs : (new == old) ≡ false = ground arith in rw (remove_conn, e, differs) refl

abbrev Keeps : Server → Server → Type 0
Keeps server after = after.conn_map ≡ server.conn_map

Keeps-if :
    (closed : Bool) (server after : Server)
    → Keeps server after
    → Keeps server (if closed then server else after)
Keeps-if true server after k = refl
Keeps-if false server after k = k

close_conn-stale :
    (client_id : Bytes) (old new : ℕ) (server : Server)
    → load client_id server.conn_map ≡ some new
    → new ≢ old
    → (close_conn client_id old server).conn_map ≡ server.conn_map
unfolding close_conn close_heap
close_conn-stale client_id old new server e ne = by_heap (server.heap old)
  where
    by_heap :
        (o : Option Conn)
        → Keeps server (elim o [
          | none ↦ server
          | some c ↦
              if c.closed
              then server
              else remove_conn client_id old (close_heap old (some c) server)
        ])
    by_heap none = refl
    by_heap (some c) =
        Keeps-if c.closed server (remove_conn client_id old (close_heap old (some c) server)) (
          ap (λ after. after.conn_map)
            (remove_conn-stale client_id old new (close_heap old (some c) server) e ne))

-- A client that connects is found under its address, and closing a connection that was registered
-- before, for the first time or again, leaves it and every other client in the map.
pub close_conn-register_conn :
    (client_id : Bytes) (old : ℕ) (conn : Conn) (server : Server)
    → old < server.fresh
    → let after = register_conn client_id conn server in
      (get_conn (close_conn client_id old after) client_id ≡ some server.fresh)
      × ((other : Bytes) → get_conn (close_conn client_id old after) other ≡ get_conn after other)
unfolding get_conn register_conn
close_conn-register_conn client_id old conn server h =
    let after = register_conn client_id conn server in
    let found : load client_id after.conn_map ≡ some server.fresh =
      load-store client_id client_id server.fresh server.conn_map
      ∙ rw (bytes_eq_refl client_id) refl in
    let kept = close_conn-stale client_id old server.fresh after found (omega (arith, h)) in
    (ap (load client_id) kept ∙ found, λ other. ap (load other) kept)
