-- ===== src/Network/Clients/Events/Invariant.antt =====
-- What holds of the server in every reachable state.
use mathlib.Core.Path.{subst}
use longclaw.Base.{
  ℕ, ◌≡◌, ◌∙◌, refl, sym, ap, Bool, true, false, not, ◌&&◌, Option, none, some, List, [], ◌∷◌,
  Bytes, bytes_eq, ltb, if◌then◌else◌, update, ◌⊎◌, inl, inr, ok, err, panic, any, ok-injective,
  length, ◌++◌,
}
use longclaw.Base.Dict.{load, delete, load-delete-some}
use longclaw.Iso.Spec.{IsoSpec}
use longclaw.Network.Response.{Env}
use longclaw.Network.Conn.{Conn, try_queue, write_channel_size, answer_message}
use longclaw.Network.Clients.{
  Server, client_not_found, write_channel_full, get_conn, is_conn, remove_conn, queue_raw,
  send_message,
}
use longclaw.Network.Clients.Connections.{stop}
use longclaw.Network.Clients.Connections.Stopped.{Distinct, stop-none}
use longclaw.Network.Clients.Events.{
  new_conn, settle, Event, connects, moves, sends, closes, Reachable, starts, later,
}
use longclaw.Network.Admission.{Arrival, handle_new_connect}
use longclaw.Network.Admission.Checked.{handle_new_connect-IsWelcome}
use longclaw.Network.Clients.Connections.Shut.{IsShut, stop-IsShut}
use longclaw.Network.Clients.Events.Bounded.{AllBounded, Reachable-AllBounded}
use longclaw.Network.Clients.Events.Entries.{
  IsValid, update-IsValid, delete-other, not_conn-entry, close_conn-IsValid, register_conn-IsValid,
}

module _ (remote_addr : ℕ → Bytes) where
  handle_new_connect-IsValid :
      (expected_cn : Bytes) (arrival : Arrival) (conn : Conn) (s : Server)
      → conn.closed ≡ false
      → IsValid remote_addr s
      → IsValid remote_addr (handle_new_connect expected_cn arrival (remote_addr s.fresh) conn s).0
  handle_new_connect-IsValid expected_cn arrival conn s h p =
      elim (handle_new_connect-IsWelcome expected_cn arrival (remote_addr s.fresh) conn s) [
        | inl (welcome, e) ↦
            subst (IsValid remote_addr) (ap first (sym e))
              (register_conn-IsValid remote_addr conn s h p)
        | inr (unwelcome, e) ↦ subst (IsValid remote_addr) (ap first (sym e)) p
      ]
    where
      first : Server × Bool → Server
      first (server, kept) = server

  settle-IsValid :
      (conn : ℕ) (c c' : Conn) (s : Server)
      → s.heap conn ≡ some c
      → IsValid remote_addr s
      → IsValid remote_addr (settle (remote_addr conn) conn c c' s)
  unfolding settle remove_conn
  settle-IsValid conn c c' s e p =
      by_closed c.closed c'.closed (is_conn conn (load (remote_addr conn) s.conn_map)) refl refl
        refl
    where
      unregistered : (id : Bytes) → c.closed ≡ true → load id s.conn_map ≡ some conn → ⊥
      unregistered id closed h =
          let (made, own, (c'', e', o)) = p id conn h in clash c'' e' o closed
        where
          clash : (c'' : Conn) → s.heap conn ≡ some c'' → c''.closed ≡ false → c.closed ≡ true → ⊥
          clash c'' e' o closed = cc

      by_closed :
          (was is here : Bool)
          → c.closed ≡ was
          → c'.closed ≡ is
          → is_conn conn (load (remote_addr conn) s.conn_map) ≡ here
          → IsValid remote_addr (
              let moved : Server = record s { heap = update s.heap conn c' } in
              if not was && is
              then (if here
                  then record moved { conn_map = delete (remote_addr conn) moved.conn_map }
                  else moved)
              else moved)
      by_closed true is here closed e' h =
          update-IsValid remote_addr s conn c' s.conn_map p (λ id b e. e)
            (λ id e. absurd (unregistered id closed e))
      by_closed false false here opened e' h =
          update-IsValid remote_addr s conn c' s.conn_map p (λ id b e. e) (λ id e. e')
      by_closed false true true opened e' h =
          update-IsValid remote_addr s conn c' (delete (remote_addr conn) s.conn_map) p
            (λ id b. load-delete-some (remote_addr conn) id b s.conn_map)
            (λ id e. absurd (delete-other remote_addr s conn id p e))
      by_closed false true false opened e' h =
          update-IsValid remote_addr s conn c' s.conn_map p (λ id b e. e)
            (λ id e. absurd (not_conn-entry remote_addr s conn id p h e))

  send_message-IsValid :
      (id raw_msg : Bytes) (s t : Server)
      → send_message id raw_msg s ≡ ok t
      → IsValid remote_addr s
      → IsValid remote_addr t
  unfolding send_message queue_raw get_conn try_queue
  send_message-IsValid id raw_msg s t e p = by_conn (load id s.conn_map) refl e
    where
      queued :
          (conn : ℕ) (c : Conn) (room : Bool)
          → load id s.conn_map ≡ some conn
          → s.heap conn ≡ some c
          → (elim (if room
              then some
                  (record c { write_channel = c.write_channel ++ (answer_message raw_msg ∷ []) })
              else none) [
                | some c' ↦ ok (record s { heap = update s.heap conn c' })
                | none ↦ err (write_channel_full id)
              ])
            ≡ ok t
          → IsValid remote_addr t
      queued conn c false r h e = cc
      queued conn c true r h e = subst (IsValid remote_addr) (ok-injective e) (
          update-IsValid remote_addr s conn
            (record c { write_channel = c.write_channel ++ (answer_message raw_msg ∷ []) })
            s.conn_map p (λ id b e. e)
            (λ other e'.
              let (made, own, (c', h', o)) = p other conn e' in is_open conn c c' h h' o))
        where
          is_open :
              (conn : ℕ) (c c' : Conn)
              → s.heap conn ≡ some c
              → s.heap conn ≡ some c'
              → c'.closed ≡ false
              → c.closed ≡ false
          is_open conn c c' h h' o = cc

      by_heap :
          (conn : ℕ) (o : Option Conn)
          → load id s.conn_map ≡ some conn
          → s.heap conn ≡ o
          → (elim o [ none ↦ panic | some c ↦ queue_raw id raw_msg conn s c ]) ≡ ok t
          → IsValid remote_addr t
      by_heap conn none r h e = cc
      by_heap conn (some c) r h e =
          queued conn c (ltb (length c.write_channel) write_channel_size) r h e

      by_conn :
          (o : Option ℕ)
          → load id s.conn_map ≡ o
          → (elim o [
            | none ↦ err (client_not_found id)
            | some conn ↦ elim (s.heap conn) [
              | none ↦ panic
              | some c ↦ queue_raw id raw_msg conn s c
            ]
          ])
            ≡ ok t
          → IsValid remote_addr t
      by_conn none h e = cc
      by_conn (some conn) h e = by_heap conn (s.heap conn) h refl e

  module _ (spec : IsoSpec) (env : Env) where
    Event-IsValid :
        (s t : Server)
        → Event spec env remote_addr s t
        → IsValid remote_addr s
        → IsValid remote_addr t
    Event-IsValid s t (connects expected_cn arrival shared e) p =
        subst (IsValid remote_addr) (sym e) (
          handle_new_connect-IsValid expected_cn arrival (new_conn (remote_addr s.fresh) shared) s
            (unfold new_conn in refl) p)
    Event-IsValid s t (moves conn c c' found move e) p =
        subst (IsValid remote_addr) (sym e) (settle-IsValid conn c c' s found p)
    Event-IsValid s t (sends id raw_msg e) p = send_message-IsValid id raw_msg s t e p
    Event-IsValid s t (closes conn e) p =
        subst (IsValid remote_addr) (sym e) (close_conn-IsValid remote_addr conn s p)

    Reachable-IsValid : (s : Server) → Reachable spec env remote_addr s → IsValid remote_addr s
    unfolding load
    Reachable-IsValid s starts = λ id conn e. cc
    Reachable-IsValid t (later {s} before event) =
        Event-IsValid s t event (Reachable-IsValid s before)

    -- Whatever clients came, whatever their connections did, and in whatever order: each registered client
    -- has an open connection, which no other client has, and which was made for this client, and no
    -- connection, registered or not, has more than 1024 messages to write. Once `Stop` has visited the keys
    -- of the map, in whatever order, all the registered connections are closed and no client is
    -- registered.
    pub Reachable-stop :
        (s : Server)
        → Reachable spec env remote_addr s
        → (order : List Bytes)
        → ((id : Bytes)
            → (load id s.conn_map ≡ none) ⊎ (any (λ other. bytes_eq other id) order ≡ true))
        → IsValid remote_addr s
          × Distinct s
          × AllBounded s
          × ((id : Bytes) (conn : ℕ) → load id s.conn_map ≡ some conn → IsShut (stop order s) conn)
          × ((id : Bytes) → get_conn (stop order s) id ≡ none)
    Reachable-stop s r order visits =
        let p = Reachable-IsValid s r in
        let distinct : Distinct s =
          (λ id other conn e e'. sym (p other conn e').1 ∙ (p id conn e).1) in
        (
          p,
          distinct,
          Reachable-AllBounded remote_addr spec env s r,
          (λ id conn e. stop-IsShut order s id conn e (visits id)),
          stop-none order s (λ id conn e. (p id conn e).2) distinct visits,
        )
