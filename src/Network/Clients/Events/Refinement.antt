-- ===== src/Network/Clients/Events/Refinement.antt =====
-- The server as its API shows it: which client has which connection. Every step of it joins or removes one client
-- at most.
use mathlib.Core.Path.{subst}
use longclaw.Base.{
  ℕ, ◌≡◌, ◌∙◌, refl, sym, ap, arith, Bool, true, false, not, ◌&&◌, Option, none, some, Bytes,
  bytes_eq, bytes_eq_refl, if◌then◌else◌, update, inl, inr, ◌⊎◌, ◌≢◌, Bool-cases, ok, err, panic,
  ok-injective,
}
use longclaw.Base.Dict.{Dict, load, delete, load-store, load-delete}
use longclaw.Iso.Spec.{IsoSpec}
use longclaw.Network.Response.{Env}
use longclaw.Network.Conn.{Conn, try_queue, answer_message}
use longclaw.Network.Clients.{
  Server, client_not_found, write_channel_full, get_conn, is_conn, register_conn, remove_conn,
  close_heap, close_conn, queue_raw, send_message,
}
use longclaw.Network.Clients.Connections.Closed.{IsOpen, close_cases}
use longclaw.Network.Clients.Events.{new_conn, settle, Event, connects, moves, sends, closes}
use longclaw.Network.Admission.{Arrival, handle_new_connect}
use longclaw.Network.Admission.Checked.{IsWelcome, handle_new_connect-IsWelcome}

-- The connections of the clients.
abbrev pub Clients : Type 0
Clients = Bytes → Option ℕ

-- What the API shows of a server.
abbrev pub clients_of : Server → Clients
clients_of s id = get_conn s id

abbrev pub Stays : Clients → Clients → Type 0
Stays before after = (id : Bytes) → after id ≡ before id

abbrev OthersKeep : Bytes → Clients → Clients → Type 0
OthersKeep client before after = (id : Bytes) → bytes_eq client id ≡ false → after id ≡ before id

-- The client has this connection, instead of any that it had.
abbrev pub Joins : Bytes → ℕ → Clients → Clients → Type 0
Joins client conn before after = (after client ≡ some conn) × OthersKeep client before after

-- The client leaves if this is its connection, and stays if it has another one.
abbrev pub Leaves : Bytes → ℕ → Clients → Clients → Type 0
Leaves client conn before after =
    ((before client ≡ some conn) × (after client ≡ none) × OthersKeep client before after)
    ⊎ ((before client ≢ some conn) × Stays before after)

-- What each event is to the clients.
abbrev pub ClientStep :
    {spec : IsoSpec} {env : Env} {remote_addr : ℕ → Bytes} {s t : Server}
    → Event spec env remote_addr s t
    → Type 0
ClientStep {remote_addr = remote_addr} {s = s} {t = t} (connects expected_cn arrival shared e) =
    (IsWelcome expected_cn arrival
      × Joins (remote_addr s.fresh) s.fresh (clients_of s) (clients_of t))
    ⊎ ((IsWelcome expected_cn arrival → ⊥) × Stays (clients_of s) (clients_of t))
ClientStep {remote_addr = remote_addr} {s = s} {t = t} (moves conn c c' found move e) =
    ((c.closed ≡ false)
      × (c'.closed ≡ true)
      × Leaves (remote_addr conn) conn (clients_of s) (clients_of t))
    ⊎ (((c.closed ≡ true) ⊎ (c'.closed ≡ false)) × Stays (clients_of s) (clients_of t))
ClientStep {s = s} {t = t} (sends id raw_msg e) = Stays (clients_of s) (clients_of t)
ClientStep {remote_addr = remote_addr} {s = s} {t = t} (closes conn e) =
    (IsOpen s conn × Leaves (remote_addr conn) conn (clients_of s) (clients_of t))
    ⊎ ((IsOpen s conn → ⊥) × Stays (clients_of s) (clients_of t))

is_conn-some : (conn : ℕ) (o : Option ℕ) → is_conn conn o ≡ true → o ≡ some conn
is_conn-some conn none e = cc
is_conn-some conn (some other) e = ap some (ground (arith, e))

is_conn-other : (conn : ℕ) (o : Option ℕ) → is_conn conn o ≡ false → o ≢ some conn
is_conn-other conn none e h = cc
is_conn-other conn (some other) e h = ground (arith, e, some_injective h)
  where
    some_injective : some other ≡ some conn → other ≡ conn
    some_injective h = cc

register_conn-Joins :
    (id : Bytes) (conn : Conn) (s : Server)
    → Joins id s.fresh (clients_of s) (clients_of (register_conn id conn s))
unfolding register_conn get_conn
register_conn-Joins id conn s = (
  load-store id id s.fresh s.conn_map ∙ rw (bytes_eq_refl id) refl,
  λ other differs. load-store id other s.fresh s.conn_map ∙ rw differs refl,
)

-- The entry of this connection is deleted.
delete-Leaves :
    (id : Bytes) (conn : ℕ) (m : Dict ℕ)
    → is_conn conn (load id m) ≡ true
    → Leaves id conn (λ other. load other m) (λ other. load other (delete id m))
delete-Leaves id conn m registered = inl (
  is_conn-some conn (load id m) registered,
  load-delete id id m ∙ rw (bytes_eq_refl id) refl,
  λ other differs. load-delete id other m ∙ rw differs refl,
)

is_open : (s : Server) (conn : ℕ) → IsOpen s conn ⊎ (IsOpen s conn → ⊥)
is_open s conn = by_heap (s.heap conn) refl
  where
    shut :
        (c c' : Conn)
        → s.heap conn ≡ some c
        → c.closed ≡ true
        → s.heap conn ≡ some c'
        → c'.closed ≡ false
        → ⊥
    shut c c' e t e' f = cc

    absent : (c' : Conn) → s.heap conn ≡ none → s.heap conn ≡ some c' → ⊥
    absent c' e e' = cc

    by_heap : (o : Option Conn) → s.heap conn ≡ o → IsOpen s conn ⊎ (IsOpen s conn → ⊥)
    by_heap none e = inr (λ (c', e', f). absent c' e e')
    by_heap (some c) e = elim (Bool-cases c.closed) [
      | inl closed ↦ inr (λ (c', e', f). shut c c' e closed e' f)
      | inr opened ↦ inl (c, e, opened)
    ]

-- The second `Close` changes nothing.
shut-same : (id : Bytes) (conn : ℕ) (s : Server) → (IsOpen s conn → ⊥) → close_conn id conn s ≡ s
unfolding close_conn
shut-same id conn s shut = by_heap (s.heap conn) refl
  where
    by_closed :
        (c : Conn) (b : Bool) (t : Server)
        → s.heap conn ≡ some c
        → c.closed ≡ b
        → (if b then s else t) ≡ s
    by_closed c true t e closed = refl
    by_closed c false t e opened = absurd (shut (c, e, opened))

    by_heap :
        (o : Option Conn)
        → s.heap conn ≡ o
        → (elim o [
          | none ↦ s
          | some c ↦ if c.closed then s else remove_conn id conn (close_heap conn (some c) s)
        ])
          ≡ s
    by_heap none e = refl
    by_heap (some c) e = by_closed c c.closed _ e refl

close_conn-Leaves :
    (id : Bytes) (conn : ℕ) (s : Server)
    → (IsOpen s conn × Leaves id conn (clients_of s) (clients_of (close_conn id conn s)))
      ⊎ ((IsOpen s conn → ⊥) × Stays (clients_of s) (clients_of (close_conn id conn s)))
unfolding get_conn
close_conn-Leaves id conn s = elim (is_open s conn) [
  | inl opened ↦ inl (
    opened,
    close_cases id conn s (λ t. Leaves id conn (clients_of s) (clients_of t))
        (λ shut. absurd (shut opened))
        (λ c found registered. delete-Leaves id conn s.conn_map registered)
        (λ c found other. inr (is_conn-other conn (load id s.conn_map) other, λ id. refl)),
  )
  | inr shut ↦
      inr (shut, λ other. ap (λ (t : Server). load other t.conn_map) (shut-same id conn s shut))
]

settle-Leaves :
    (id : Bytes) (conn : ℕ) (c c' : Conn) (s : Server)
    → ((c.closed ≡ false)
        × (c'.closed ≡ true)
        × Leaves id conn (clients_of s) (clients_of (settle id conn c c' s)))
      ⊎ (((c.closed ≡ true) ⊎ (c'.closed ≡ false))
          × Stays (clients_of s) (clients_of (settle id conn c c' s)))
unfolding settle remove_conn get_conn
settle-Leaves id conn c c' s = by_tests c.closed c'.closed (is_conn conn (load id s.conn_map)) refl
  where
    by_tests :
        (was is here : Bool)
        → is_conn conn (load id s.conn_map) ≡ here
        → let after : Server =
            let moved : Server = record s { heap = update s.heap conn c' } in
            if not was && is
            then (if here then record moved { conn_map = delete id moved.conn_map } else moved)
            else moved in
          ((was ≡ false) × (is ≡ true) × Leaves id conn (clients_of s) (clients_of after))
          ⊎ (((was ≡ true) ⊎ (is ≡ false)) × Stays (clients_of s) (clients_of after))
    by_tests true is here e = inr (inl refl, λ other. refl)
    by_tests false false here e = inr (inr refl, λ other. refl)
    by_tests false true true registered =
        inl (refl, refl, delete-Leaves id conn s.conn_map registered)
    by_tests false true false other =
        inl (refl, refl, inr (is_conn-other conn (load id s.conn_map) other, λ other. refl))

send_message-same :
    (id raw_msg : Bytes) (s t : Server) → send_message id raw_msg s ≡ ok t → t.conn_map ≡ s.conn_map
unfolding send_message queue_raw
send_message-same id raw_msg s t e = by_conn (get_conn s id) e
  where
    by_room :
        (conn : ℕ) (o : Option Conn)
        → (elim o [
          | some c' ↦ ok (record s { heap = update s.heap conn c' })
          | none ↦ err (write_channel_full id)
        ])
          ≡ ok t
        → t.conn_map ≡ s.conn_map
    by_room conn none e = cc
    by_room conn (some c') e = sym (ap (λ (r : Server). r.conn_map) (ok-injective e))

    by_heap :
        (conn : ℕ) (o : Option Conn)
        → (elim o [ none ↦ panic | some c ↦ queue_raw id raw_msg conn s c ]) ≡ ok t
        → t.conn_map ≡ s.conn_map
    by_heap conn none e = cc
    by_heap conn (some c) e = by_room conn (try_queue (answer_message raw_msg) c) e

    by_conn :
        (o : Option ℕ)
        → (elim o [
          | none ↦ err (client_not_found id)
          | some conn ↦ elim (s.heap conn) [ none ↦ panic | some c ↦ queue_raw id raw_msg conn s c ]
        ])
          ≡ ok t
        → t.conn_map ≡ s.conn_map
    by_conn none e = cc
    by_conn (some conn) e = by_heap conn (s.heap conn) e

handle_new_connect-Joins :
    (expected_cn : Bytes) (arrival : Arrival) (id : Bytes) (conn : Conn) (s : Server)
    → let after = (handle_new_connect expected_cn arrival id conn s).0 in
      (IsWelcome expected_cn arrival × Joins id s.fresh (clients_of s) (clients_of after))
      ⊎ ((IsWelcome expected_cn arrival → ⊥) × Stays (clients_of s) (clients_of after))
handle_new_connect-Joins expected_cn arrival id conn s =
    elim (handle_new_connect-IsWelcome expected_cn arrival id conn s) [
      | inl (welcome, e) ↦
          subst Shows (ap server_of (sym e)) (inl (welcome, register_conn-Joins id conn s))
      | inr (rude, e) ↦ subst Shows (ap server_of (sym e)) (inr (rude, λ other. refl))
    ]
  where
    server_of : Server × Bool → Server
    server_of (server, kept) = server

    Shows : Server → Type 0
    Shows t =
        (IsWelcome expected_cn arrival × Joins id s.fresh (clients_of s) (clients_of t))
        ⊎ ((IsWelcome expected_cn arrival → ⊥) × Stays (clients_of s) (clients_of t))

-- Each step of the server is a step of the clients, by its event: a socket that is welcome, and no other, joins
-- its client with the new connection, instead of any it had; a connection that closes, by itself or by
-- `Close`, removes its client if it is still the client's connection, and no client otherwise; all other
-- steps, and a second `Close`, change no client; and no step changes another client.
pub Event-ClientStep :
    (spec : IsoSpec) (env : Env) (remote_addr : ℕ → Bytes) (s t : Server)
    (event : Event spec env remote_addr s t)
    → ClientStep event
unfolding get_conn
Event-ClientStep spec env remote_addr s t (connects expected_cn arrival shared e) =
    subst
      (λ u.
        (IsWelcome expected_cn arrival
          × Joins (remote_addr s.fresh) s.fresh (clients_of s) (clients_of u))
        ⊎ ((IsWelcome expected_cn arrival → ⊥) × Stays (clients_of s) (clients_of u)))
      (sym e)
      (handle_new_connect-Joins expected_cn arrival (remote_addr s.fresh)
        (new_conn (remote_addr s.fresh) shared) s)
Event-ClientStep spec env remote_addr s t (moves conn c c' found move e) =
    subst
      (λ u.
        ((c.closed ≡ false)
          × (c'.closed ≡ true)
          × Leaves (remote_addr conn) conn (clients_of s) (clients_of u))
        ⊎ (((c.closed ≡ true) ⊎ (c'.closed ≡ false)) × Stays (clients_of s) (clients_of u)))
      (sym e) (settle-Leaves (remote_addr conn) conn c c' s)
Event-ClientStep spec env remote_addr s t (sends id raw_msg e) =
    λ other. ap (load other) (send_message-same id raw_msg s t e)
Event-ClientStep spec env remote_addr s t (closes conn e) =
    subst
      (λ u.
        (IsOpen s conn × Leaves (remote_addr conn) conn (clients_of s) (clients_of u))
        ⊎ ((IsOpen s conn → ⊥) × Stays (clients_of s) (clients_of u)))
      (sym e) (close_conn-Leaves (remote_addr conn) conn s)
