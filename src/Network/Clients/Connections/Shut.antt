-- ===== src/Network/Clients/Connections/Shut.antt =====
-- `Stop` of network/server/iso_server.go closes the connection of every client that it visits.
use mathlib.Core.Path.{subst}
use longclaw.Base.{
  ℕ, ◌≡◌, ◌∙◌, refl, sym, ap, arith, Bool, true, false, ◌||◌, Option, none, some, List, [], ◌∷◌,
  any, Bytes, bytes_eq, bytes_eq→eq, ◌==◌, update, ◌⊎◌, inl, inr, Bool-cases,
}
use longclaw.Base.Dict.{load}
use longclaw.Base.Order.{bytes_le}
use longclaw.Base.Sort.{sort}
use longclaw.Network.Conn.{Conn, close}
use longclaw.Network.Clients.{Server, get_conn, close_conn}
use longclaw.Network.Clients.Connections.{add_known, known, connections, close_all, stop}
use longclaw.Network.Clients.Connections.Closed.{IsOpen, close_cases}
use longclaw.Network.Clients.Connections.Stopped.{any-sort}

-- The connection is closed.
abbrev pub IsShut : Server → ℕ → Type 0
IsShut s conn = IsOpen s conn → ⊥

closed-IsShut :
    (heap : ℕ → Option Conn) (conn : ℕ) (c c' : Conn)
    → update heap conn (close c) conn ≡ some c'
    → c'.closed ≡ false
    → ⊥
unfolding close
closed-IsShut heap conn c c' e o =
    let here : (conn == conn) ≡ true = ground arith in clash (rw here at e)
  where
    clash : some (record c { closed = true }) ≡ some c' → ⊥
    clash e = cc

-- Only the connection that is closed changes in the heap.
kept-IsShut :
    (s : Server) (conn b : ℕ) (c c' : Conn)
    → IsShut s b
    → update s.heap conn (close c) b ≡ some c'
    → c'.closed ≡ false
    → ⊥
kept-IsShut s conn b c c' h e o = elim (Bool-cases (conn == b)) [
  | inl same ↦
      let same' : b ≡ conn = ground (arith, same) in
      closed-IsShut s.heap conn c c' (ap (update s.heap conn (close c)) (sym same') ∙ e) o
  | inr different ↦ h (c', rw different at e, o)
]

close_conn-IsShut : (id : Bytes) (conn : ℕ) (s : Server) → IsShut (close_conn id conn s) conn
close_conn-IsShut id conn s =
    close_cases id conn s (λ s'. IsShut s' conn) (λ h. h)
      (λ c found h (c', e, o). closed-IsShut s.heap conn c c' e o)
      (λ c found h (c', e, o). closed-IsShut s.heap conn c c' e o)

close_conn-keeps :
    (id : Bytes) (conn b : ℕ) (s : Server) → IsShut s b → IsShut (close_conn id conn s) b
close_conn-keeps id conn b s p =
    close_cases id conn s (λ s'. IsShut s' b) (λ h. p)
      (λ c found h (c', e, o). kept-IsShut s conn b c c' p e o)
      (λ c found h (c', e, o). kept-IsShut s conn b c c' p e o)

close_all-keeps :
    (conns : List (Bytes × ℕ)) (b : ℕ) (s : Server) → IsShut s b → IsShut (close_all conns s) b
unfolding close_all
close_all-keeps [] b s p = p
close_all-keeps ((id, conn) ∷ conns) b s p =
    close_all-keeps conns b (close_conn id conn s) (close_conn-keeps id conn b s p)

close_all-IsShut :
    (s0 : Server) (id : Bytes) (conn : ℕ) (ids : List Bytes) (s : Server)
    → load id s0.conn_map ≡ some conn
    → any (λ other. bytes_eq other id) ids ≡ true
    → IsShut (close_all (known s0 ids) s) conn
unfolding close_all known add_known
close_all-IsShut s0 id conn [] s e v = cc
close_all-IsShut s0 id conn (first ∷ ids) s e v =
    by_first (bytes_eq first id) refl v (get_conn s0 first) (unfold get_conn in refl)
      (λ s1. close_all-IsShut s0 id conn ids s1 e)
  where
    same_conn : (b : ℕ) → load id s0.conn_map ≡ some b → b ≡ conn
    same_conn b e' = cc

    missing : load id s0.conn_map ≡ none → ⊥
    missing e' = cc

    by_first :
        (b : Bool)
        → bytes_eq first id ≡ b
        → (b || any (λ other. bytes_eq other id) ids) ≡ true
        → (o : Option ℕ) → load first s0.conn_map ≡ o
        → ((s1 : Server)
            → any (λ other. bytes_eq other id) ids ≡ true
            → IsShut (close_all (known s0 ids) s1) conn)
        → IsShut
            (close_all
              (elim o [ none ↦ known s0 ids | some here ↦ (first, here) ∷ known s0 ids ])
              s)
            conn
    by_first true h v none e' rest =
        absurd (missing (ap (λ t. load t s0.conn_map) (sym (bytes_eq→eq first id h)) ∙ e'))
    by_first true h v (some here) e' rest =
        let same =
          same_conn here (ap (λ t. load t s0.conn_map) (sym (bytes_eq→eq first id h)) ∙ e') in
        close_all-keeps (known s0 ids) conn (close_conn first here s)
          (subst (IsShut (close_conn first here s)) same (close_conn-IsShut first here s))
    by_first false h v none e' rest = rest s v
    by_first false h v (some here) e' rest = rest (close_conn first here s) v

pub stop-IsShut :
    (order : List Bytes) (s : Server) (id : Bytes) (conn : ℕ)
    → load id s.conn_map ≡ some conn
    → (load id s.conn_map ≡ none) ⊎ (any (λ other. bytes_eq other id) order ≡ true)
    → IsShut (stop order s) conn
unfolding stop connections
stop-IsShut order s id conn e (inl gone) = absurd (clash gone)
  where
    clash : load id s.conn_map ≡ none → ⊥
    clash gone = cc
stop-IsShut order s id conn e (inr visited) =
    close_all-IsShut s id conn (sort bytes_le order) s e
      (any-sort (λ other. bytes_eq other id) order ∙ visited)
