-- ===== src/Network/Clients/Connections/Closed.antt =====
-- The branches of `Close` of network/server/iso_server.go, with the server's `onClose`.
use longclaw.Base.{
  ℕ, ◌≡◌, refl, Bool, true, false, Option, none, some, Bytes, if◌then◌else◌, update,
}
use longclaw.Base.Dict.{load, delete}
use longclaw.Network.Conn.{Conn, close}
use longclaw.Network.Clients.{Server, is_conn, remove_conn, close_heap, close_conn}

abbrev pub IsOpen : Server → ℕ → Type 0
IsOpen server conn = (c : Conn) × (server.heap conn ≡ some c) × (c.closed ≡ false)

-- The branches of `Close`.
pub close_cases :
    (id : Bytes) (conn : ℕ) (s : Server) (P : Server → Type 0)
    → ((IsOpen s conn → ⊥) → P s)
    → ((c : Conn)
        → s.heap conn ≡ some c
        → is_conn conn (load id s.conn_map) ≡ true
        → P (record s { heap = update s.heap conn (close c); conn_map = delete id s.conn_map }))
    → ((c : Conn)
        → s.heap conn ≡ some c
        → is_conn conn (load id s.conn_map) ≡ false
        → P (record s { heap = update s.heap conn (close c) }))
    → P (close_conn id conn s)
unfolding close_conn remove_conn close_heap
close_cases id conn s P same gone kept = by_heap (s.heap conn) refl
  where
    clash :
        (c c' : Conn)
        → s.heap conn ≡ some c
        → s.heap conn ≡ some c'
        → c.closed ≡ true
        → c'.closed ≡ false
        → ⊥
    clash c c' e e' t f = cc

    absent : (c' : Conn) → s.heap conn ≡ none → s.heap conn ≡ some c' → ⊥
    absent c' e e' = cc

    by_entry :
        (c : Conn) (b : Bool)
        → s.heap conn ≡ some c
        → is_conn conn (load id s.conn_map) ≡ b
        → P (
            if b
            then record s { heap = update s.heap conn (close c); conn_map = delete id s.conn_map }
            else record s { heap = update s.heap conn (close c) })
    by_entry c true found e = gone c found e
    by_entry c false found e = kept c found e

    by_closed :
        (c : Conn) (b : Bool)
        → s.heap conn ≡ some c
        → c.closed ≡ b
        → P (if b then s else remove_conn id conn (close_heap conn (some c) s))
    by_closed c true e closed = same (λ (c', e', o'). clash c c' e e' closed o')
    by_closed c false e closed = by_entry c (is_conn conn (load id s.conn_map)) e refl

    by_heap :
        (o : Option Conn)
        → s.heap conn ≡ o
        → P (elim o [
          | none ↦ s
          | some c ↦ if c.closed then s else remove_conn id conn (close_heap conn (some c) s)
        ])
    by_heap none e = same (λ (c', e', o'). absent c' e e')
    by_heap (some c) e = by_closed c c.closed e refl
