-- ===== src/Network/Clients/Connections/Stopped.antt =====
-- `Stop` of network/server/iso_server.go leaves no client connected.
use mathlib.Core.Path.{subst}
use longclaw.Base.{
  ℕ, ◌≡◌, ◌∙◌, refl, sym, ap, arith, Bool, true, false, ◌||◌, Option, none, some, List, [], ◌∷◌,
  any, Bytes, bytes_eq, bytes_eq→eq, bytes_eq_refl, ◌==◌, update, ◌⊎◌, inl, inr, Bool-cases,
}
use longclaw.Base.Dict.{Dict, load, delete, load-delete, load-delete-some}
use longclaw.Base.Order.{bytes_le}
use longclaw.Base.Sort.{insert, sort}
use longclaw.Network.Conn.{Conn, close}
use longclaw.Network.Clients.{Server, get_conn, is_conn, close_conn}
use longclaw.Network.Clients.Connections.Closed.{IsOpen, close_cases}
use longclaw.Network.Clients.Connections.{add_known, known, connections, close_all, stop}

-- A registered connection is open.
abbrev pub Open : Server → Type 0
Open server = (id : Bytes) (conn : ℕ) → load id server.conn_map ≡ some conn → IsOpen server conn

-- No connection is registered twice.
abbrev pub Distinct : Server → Type 0
Distinct server =
    (id other : Bytes) (conn : ℕ)
    → load id server.conn_map ≡ some conn
    → load other server.conn_map ≡ some conn
    → other ≡ id

-- Fewer clients are registered, each with the connection that it had.
abbrev Shrinks : Server → Server → Type 0
Shrinks s s' =
    (id : Bytes) (conn : ℕ) → load id s'.conn_map ≡ some conn → load id s.conn_map ≡ some conn

-- One connection of the list is closed.
module _ (s0 : Server) (distinct : Distinct s0) where
  record Stopping (s : Server) : Type 0 where
    all_open : Open s
    shrunk : Shrinks s0 s

  closed-Stopping :
      (id : Bytes) (conn : ℕ) (s : Server) (c : Conn) (m : Dict ℕ)
      → load id s0.conn_map ≡ some conn
      → Stopping s
      → ((other : Bytes) (b : ℕ) → load other m ≡ some b → load other s.conn_map ≡ some b)
      → load id m ≡ none
      → Stopping (record s { heap = update s.heap conn c; conn_map = m })
  closed-Stopping id conn s c m registered p fewer gone = record {
    all_open = λ other b e.
        let (c', h, o) = p.all_open other b (fewer other b e) in
        elim (Bool-cases (conn == b)) [
          | inl same ↦ absurd (not_same other b e (ground (arith, same)))
          | inr different ↦ (c', rw different h, o)
        ];
    shrunk = λ other b e. p.shrunk other b (fewer other b e);
  }
    where
      not_same : (other : Bytes) (b : ℕ) → load other m ≡ some b → conn ≡ b → ⊥
      not_same other b e h =
          let there : load other s0.conn_map ≡ some conn =
            p.shrunk other b (fewer other b e) ∙ ap some (sym h) in
          both_ways other b (distinct id other conn registered there) e
        where
          both_ways : (other : Bytes) (b : ℕ) → other ≡ id → load other m ≡ some b → ⊥
          both_ways other b h e = cc

  -- Whoever is still registered under the name has the connection that is closed.
  same_conn :
      (id : Bytes) (conn b : ℕ) (s : Server)
      → load id s0.conn_map ≡ some conn
      → Stopping s
      → load id s.conn_map ≡ some b
      → b ≡ conn
  same_conn id conn b s registered p e = let e' = p.shrunk id b e in only e'
    where
      only : load id s0.conn_map ≡ some b → b ≡ conn
      only h = cc

  not_open-none :
      (id : Bytes) (conn : ℕ) (s : Server) (o : Option ℕ)
      → load id s0.conn_map ≡ some conn
      → Stopping s
      → load id s.conn_map ≡ o
      → (IsOpen s conn → ⊥)
      → load id s.conn_map ≡ none
  not_open-none id conn s none registered p e h = e
  not_open-none id conn s (some b) registered p e h =
      absurd (h (subst (IsOpen s) (same_conn id conn b s registered p e) (p.all_open id b e)))

  not_conn-none :
      (id : Bytes) (conn : ℕ) (s : Server) (o : Option ℕ)
      → load id s0.conn_map ≡ some conn
      → Stopping s
      → load id s.conn_map ≡ o
      → is_conn conn o ≡ false
      → load id s.conn_map ≡ none
  not_conn-none id conn s none registered p e h = e
  not_conn-none id conn s (some b) registered p e h =
      let same = same_conn id conn b s registered p e in absurd (ground (arith, same, h))

  close_conn-Stopping :
      (id : Bytes) (conn : ℕ) (s : Server)
      → load id s0.conn_map ≡ some conn
      → Stopping s
      → Stopping (close_conn id conn s)
        × Shrinks s (close_conn id conn s)
        × (load id (close_conn id conn s).conn_map ≡ none)
  close_conn-Stopping id conn s registered p =
      close_cases id conn s (λ s'. Stopping s' × Shrinks s s' × (load id s'.conn_map ≡ none))
        (λ h.
          (p, (λ other b e. e), not_open-none id conn s (load id s.conn_map) registered p refl h))
        (λ c found h.
          let none_left = load-delete id id s.conn_map ∙ rw (bytes_eq_refl id) refl in
          (
            closed-Stopping id conn s (close c) (delete id s.conn_map) registered p
                (λ other b. load-delete-some id other b s.conn_map) none_left,
            (λ other b. load-delete-some id other b s.conn_map),
            none_left,
          ))
        (λ c found h.
          let none_left = not_conn-none id conn s (load id s.conn_map) registered p refl h in
          (
            closed-Stopping id conn s (close c) s.conn_map registered p (λ other b e. e) none_left,
            (λ other b e. e),
            none_left,
          ))

  abbrev visited : List Bytes → Bytes → Bool
  visited ids id = any (λ other. bytes_eq other id) ids

  -- Nobody new is registered, and those visited no longer are.
  abbrev Stops : List Bytes → Server → Server → Type 0
  Stops ids s s' =
      Shrinks s s' × ((id : Bytes) → visited ids id ≡ true → load id s'.conn_map ≡ none)

  Shrinks-none :
      (s s' : Server) (id : Bytes)
      → Shrinks s s'
      → load id s.conn_map ≡ none
      → load id s'.conn_map ≡ none
  Shrinks-none s s' id h e = by_load (load id s'.conn_map) refl
    where
      clash : (b : ℕ) → load id s.conn_map ≡ some b → ⊥
      clash b e' = cc

      by_load : (o : Option ℕ) → load id s'.conn_map ≡ o → load id s'.conn_map ≡ none
      by_load none e' = e'
      by_load (some b) e' = absurd (clash b (h id b e'))

  first-Stops :
      (first : Bytes) (ids : List Bytes) (s s1 s' : Server)
      → Shrinks s s1
      → load first s1.conn_map ≡ none
      → Stops ids s1 s'
      → Stops (first ∷ ids) s s'
  first-Stops first ids s s1 s' shrinks gone (h, hs) =
      ((λ id conn e. shrinks id conn (h id conn e)), λ id v. by_first id (bytes_eq first id) refl v)
    where
      by_first :
          (id : Bytes) (b : Bool)
          → bytes_eq first id ≡ b
          → (b || visited ids id) ≡ true
          → load id s'.conn_map ≡ none
      by_first id true e v =
          ap (λ n. load n s'.conn_map) (sym (bytes_eq→eq first id e))
          ∙ Shrinks-none s1 s' first h gone
      by_first id false e v = hs id v

  close_all-Stops :
      (ids : List Bytes) (s : Server) → Stopping s → Stops ids s (close_all (known s0 ids) s)
  unfolding close_all known add_known
  close_all-Stops [] s p = ((λ id conn e. e), λ id h. cc)
  close_all-Stops (first ∷ ids) s p =
      by_conn (get_conn s0 first) (unfold get_conn in refl) (close_all-Stops ids)
    where
      by_conn :
          (o : Option ℕ)
          → load first s0.conn_map ≡ o
          → ((s1 : Server) → Stopping s1 → Stops ids s1 (close_all (known s0 ids) s1))
          → Stops (first ∷ ids) s (
              close_all
                (elim o [ none ↦ known s0 ids | some conn ↦ (first, conn) ∷ known s0 ids ])
                s)
      by_conn none e rest =
          first-Stops first ids s s (close_all (known s0 ids) s) (λ id conn h. h)
            (Shrinks-none s0 s first p.shrunk e) (rest s p)
      by_conn (some conn) e rest =
          let (p', h, gone) = close_conn-Stopping first conn s e p in
          first-Stops first ids s (close_conn first conn s)
            (close_all (known s0 ids) (close_conn first conn s)) h gone
            (rest (close_conn first conn s) p')

any-insert :
    (p : Bytes → Bool) (a : Bytes) (bs : List Bytes)
    → any p (insert bytes_le a bs) ≡ (p a || any p bs)
any-insert p a [] = refl
any-insert p a (b ∷ bs) = elim (Bool-cases (bytes_le a b)) [
  | inl e ↦ rw e refl
  | inr e ↦ rw (e, any-insert p a bs) (swapped (p a) (p b) (any p bs))
]
  where
    swapped : (x y z : Bool) → (y || (x || z)) ≡ (x || (y || z))
    swapped x y z = ground arith

pub any-sort : (p : Bytes → Bool) (ids : List Bytes) → any p (sort bytes_le ids) ≡ any p ids
any-sort p [] = refl
any-sort p (id ∷ ids) = any-insert p id (sort bytes_le ids) ∙ ap (λ b. p id || b) (any-sort p ids)

-- With every registered client among the keys that the map is visited by, in whatever order, all of them
-- open and none registered twice, `Stop` leaves no client registered.
pub stop-none :
    (order : List Bytes) (server : Server)
    → Open server
    → Distinct server
    → ((id : Bytes)
        → (load id server.conn_map ≡ none) ⊎ (any (λ other. bytes_eq other id) order ≡ true))
    → (id : Bytes) → get_conn (stop order server) id ≡ none
unfolding stop connections get_conn
stop-none order server all_open distinct visits id =
    let (shrinks, gone) =
      close_all-Stops server distinct (sort bytes_le order) server
        (record { all_open = all_open; shrunk = λ i conn e. e }) in
    elim (visits id) [
      | inl e ↦
          Shrinks-none server distinct server
            (close_all (known server (sort bytes_le order)) server) id shrinks e
      | inr v ↦ gone id (any-sort (λ other. bytes_eq other id) order ∙ v)
    ]
