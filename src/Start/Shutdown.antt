-- ===== src/Start/Shutdown.antt =====
-- What is left when shutdown.go has stopped the server and closed the database.
use longclaw.Base.{
  ℕ, ◌≡◌, ◌⊎◌, inl, inr, ◌∙◌, refl, sym, ap, true, none, some, List, [], ◌∷◌, ◌++◌, append_assoc,
  append-nil, Bytes, bytes_eq, any, All, Option, false,
}
use longclaw.Base.Dict.{load}
use longclaw.Iso.Spec.{IsoSpec}
use longclaw.Network.Response.{Env}
use longclaw.Network.Clients.{get_conn}
use longclaw.Network.Clients.Connections.Shut.{IsShut}
use longclaw.Network.Clients.Events.{Reachable}
use longclaw.Network.Clients.Events.Invariant.{Reachable-stop}
use longclaw.Database.{Writer, WriteOp}
use longclaw.Database.Queue.{enqueue-running}
use longclaw.Database.Batches.Flush.{concat, accepted, Fits}
use longclaw.Database.Batches.Closing.{passes}
use longclaw.Database.Batches.Overlap.{Moment, Offer, close_during, close_during-accounts}
use longclaw.Start.{Serving, System, start_server, queue_all, serve_until_signal}

-- An open writer takes all writes, in order.
queue_all-writes :
    (ops : List WriteOp) (w : Writer) → w.done ≡ false → (queue_all ops w).writes ≡ w.writes ++ ops
unfolding queue_all
queue_all-writes [] w h = sym (append-nil w.writes)
queue_all-writes (op ∷ ops) w h =
    rw (queue_all, enqueue-running w op h)
      (queue_all-writes ops (record w { writes = w.writes ++ (op ∷ []) }) h
        ∙ append_assoc w.writes (op ∷ []) ops)

module _ (spec : IsoSpec) (env : Env) (remote_addr : ℕ → Bytes) where
  -- However serving ends, with the server in any reachable state, all keys of its connection map visited in any
  -- order, a database that is open and has committed no batch of more than 2000 writes, and an engine that
  -- refuses none: each connection that was registered is closed, and no client is registered. What is
  -- committed are the writes queued before the database is closed, in order, and then those whose
  -- calls overlap this and report success before the flush last finds the queue empty; those reported
  -- later are what is left in the queue, and a call that begins afterwards fails its first test. The
  -- status is 1 if `StartServer` has returned an error, and 0 if it has not.
  pub serve_until_signal-accounts :
      (serving : Serving) (order : List Bytes) (meanwhile : List WriteOp) (moments : List Moment)
      (late : List Offer) (s : System)
      → Reachable spec env remote_addr s.iso_server
      → ((id : Bytes)
          → (load id s.iso_server.conn_map ≡ none)
            ⊎ (any (λ other. bytes_eq other id) order ≡ true))
      → s.db.writer.done ≡ false
      → All Fits s.db.committed
      → let (after, status) = serve_until_signal serving order meanwhile moments late s in
        let queued = record s.db { writer = queue_all meanwhile s.db.writer } in
        let (_, successes, lost) = close_during moments late queued in
        ((id : Bytes) (conn : ℕ)
          → load id s.iso_server.conn_map ≡ some conn
          → IsShut after.iso_server conn)
        × ((id : Bytes) → get_conn after.iso_server id ≡ none)
        × (concat after.db.committed ≡ (accepted s.db ++ meanwhile) ++ successes)
        × (after.db.writer.writes ≡ lost)
        × (passes after.db.writer ≡ false)
        × (((start_server serving ≡ none) × (status ≡ 0))
            ⊎ ((error : Bytes) × (start_server serving ≡ some error) × (status ≡ 1)))
  unfolding serve_until_signal
  serve_until_signal-accounts serving order meanwhile moments late s reachable visits opened small =
      let (_, _, _, shut, gone) =
        Reachable-stop remote_addr spec env s.iso_server reachable order visits in
      let queued = record s.db { writer = queue_all meanwhile s.db.writer } in
      let (same, left, _, closed) = close_during-accounts moments late queued small in
      (
        shut,
        gone,
        same
            ∙ ap (λ ops. ops ++ (close_during moments late queued).1)
                (ap (λ t. concat s.db.committed ++ t)
                    (queue_all-writes meanwhile s.db.writer opened)
                  ∙ sym (append_assoc (concat s.db.committed) s.db.writer.writes meanwhile)),
        left,
        closed,
        by_error (start_server serving),
      )
    where
      by_error :
          (o : Option Bytes)
          → ((o ≡ none) × (◌≡◌ {A = ℕ} (elim o [ none ↦ 0 | some error ↦ 1 ]) 0))
            ⊎ ((error : Bytes) × (o ≡ some error)
                × (◌≡◌ {A = ℕ} (elim o [ none ↦ 0 | some error ↦ 1 ]) 1))
      by_error none = inl (refl, refl)
      by_error (some error) = inr (error, refl, refl)
