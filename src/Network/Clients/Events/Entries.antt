-- ===== src/Network/Clients/Events/Entries.antt =====
-- The registered connections of the server, and what registering and closing one keeps.
use longclaw.Base.{
  ℕ, ◌<◌, ◌≡◌, ◌∙◌, refl, sym, ap, arith, Bool, true, false, none, some, Bytes, bytes_eq,
  bytes_eq→eq, bytes_eq_refl, ◌==◌, if◌then◌else◌, update, inl, inr, Bool-cases,
}
use longclaw.Base.Dict.{Dict, load, delete, load-delete, load-store, load-delete-some}
use longclaw.Network.Conn.{Conn, close}
use longclaw.Network.Clients.{Server, is_conn, register_conn, close_conn}
use longclaw.Network.Clients.Connections.Closed.{IsOpen, close_cases}

module _ (remote_addr : ℕ → Bytes) where
  -- A registered connection is one that was made, is open, and stands under its own client.
  abbrev pub Entry : Server → Bytes → ℕ → Type 0
  Entry s id conn = (conn < s.fresh) × (remote_addr conn ≡ id) × IsOpen s conn

  abbrev pub IsValid : Server → Type 0
  IsValid s = (id : Bytes) (conn : ℕ) → load id s.conn_map ≡ some conn → Entry s id conn

  -- The map loses entries, the heap changes at one connection that is not registered any more.
  pub update-IsValid :
      (s : Server) (conn : ℕ) (c : Conn) (m : Dict ℕ)
      → IsValid s
      → ((id : Bytes) (b : ℕ) → load id m ≡ some b → load id s.conn_map ≡ some b)
      → ((id : Bytes) → load id m ≡ some conn → c.closed ≡ false)
      → IsValid (record s { heap = update s.heap conn c; conn_map = m })
  update-IsValid s conn c m p fewer still id b e =
      let (made, own, (c', h, o)) = p id b (fewer id b e) in
      elim (Bool-cases (conn == b)) [
        | inl same ↦
            let same' : b ≡ conn = ground (arith, same) in
            (made, own, (c, rw same refl, still id (e ∙ ap some same')))
        | inr different ↦ (made, own, (c', rw different h, o))
      ]

  -- A removed entry was the only one of its connection.
  pub delete-other :
      (s : Server) (conn : ℕ) (id : Bytes)
      → IsValid s
      → load id (delete (remote_addr conn) s.conn_map) ≡ some conn
      → ⊥
  delete-other s conn id p e =
      let (made, own, (c, h, o)) =
        p id conn (load-delete-some (remote_addr conn) id conn s.conn_map e) in
      gone (ap (λ t. load t (delete (remote_addr conn) s.conn_map)) own ∙ e)
    where
      gone : load (remote_addr conn) (delete (remote_addr conn) s.conn_map) ≡ some conn → ⊥
      gone e =
          let e' : none ≡ some conn =
            sym (
              load-delete (remote_addr conn) (remote_addr conn) s.conn_map
              ∙ rw (bytes_eq_refl (remote_addr conn)) refl)
            ∙ e in
          cc

  pub not_conn-entry :
      (s : Server) (conn : ℕ) (id : Bytes)
      → IsValid s
      → is_conn conn (load (remote_addr conn) s.conn_map) ≡ false
      → load id s.conn_map ≡ some conn
      → ⊥
  not_conn-entry s conn id p h e =
      let (made, own, (c, h', o)) = p id conn e in found (ap (λ t. load t s.conn_map) own ∙ e)
    where
      found : load (remote_addr conn) s.conn_map ≡ some conn → ⊥
      found e =
          let e' : is_conn conn (some conn) ≡ false = ap (is_conn conn) (sym e) ∙ h in
          ground (arith, e')

  pub close_conn-IsValid :
      (conn : ℕ) (s : Server) → IsValid s → IsValid (close_conn (remote_addr conn) conn s)
  close_conn-IsValid conn s p =
      close_cases (remote_addr conn) conn s IsValid (λ h. p)
        (λ c found h.
          update-IsValid s conn (close c) (delete (remote_addr conn) s.conn_map) p
            (λ id b. load-delete-some (remote_addr conn) id b s.conn_map)
            (λ id e. absurd (delete-other s conn id p e)))
        (λ c found h.
          update-IsValid s conn (close c) s.conn_map p (λ id b e. e)
            (λ id e. absurd (not_conn-entry s conn id p h e)))

  -- A new connection gets an address that no other has.
  pub register_conn-IsValid :
      (conn : Conn) (s : Server)
      → conn.closed ≡ false
      → IsValid s
      → IsValid (register_conn (remote_addr s.fresh) conn s)
  unfolding register_conn
  register_conn-IsValid conn s h p id b e =
      by_name (bytes_eq (remote_addr s.fresh) id) refl
        (sym (load-store (remote_addr s.fresh) id s.fresh s.conn_map) ∙ e)
    where
      after : Server
      after = register_conn (remote_addr s.fresh) conn s

      some-injective : {a b : ℕ} → some a ≡ some b → a ≡ b
      some-injective h = cc

      new :
          (b : ℕ)
          → s.fresh ≡ b
          → remote_addr s.fresh ≡ id
          → Entry (register_conn (remote_addr s.fresh) conn s) id b
      new b e own =
          let here : (s.fresh == b) ≡ true = ground (arith, e) in
          (omega (arith, e), ap remote_addr (sym e) ∙ own, (conn, rw here refl, h))

      old : Entry s id b → Entry (register_conn (remote_addr s.fresh) conn s) id b
      old (made, own, (c, found, o)) =
          let other : (s.fresh == b) ≡ false = ground (arith, made) in
          (omega (arith, made), own, (c, rw other found, o))

      by_name :
          (same : Bool)
          → bytes_eq (remote_addr s.fresh) id ≡ same
          → (if same then some s.fresh else load id s.conn_map) ≡ some b
          → Entry (register_conn (remote_addr s.fresh) conn s) id b
      by_name true same e = new b (some-injective e) (bytes_eq→eq (remote_addr s.fresh) id same)
      by_name false other e = old (p id b e)
