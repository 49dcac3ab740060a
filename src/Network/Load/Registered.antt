-- ===== src/Network/Load/Registered.antt =====
-- What becomes of a logged message and of its follow-up.
use longclaw.Base.{
  ◌+◌, ◌<◌, ◌≤◌, ◌≡◌, ◌⊎◌, inl, inr, refl, true, [], ◌∷◌, ◌++◌, length, ltb, ltb→lt, ltb→ge,
  Bool-cases,
}
use longclaw.Base.Dict.{delete}
use longclaw.Database.{
  RequestLog, add_request_log, delete_request_log, null_if_zero, request_log_insert,
  request_log_delete,
}
use longclaw.Database.Queue.{enqueue-running, enqueue-closed}
use longclaw.Network.Conn.{Conn, write_channel_size, try_queue, logged, drop_message}
use longclaw.Network.Load.{entry_message, forget, queue_single, send_logged}

-- A message that is sent is logged first, and then it is queued as logged, with its follow-up kept, if
-- the write channel has room; on a full channel it is counted as dropped, its follow-up removed, and the
-- deletion of its row queued. On a closed database nothing is queued, and its follow-up is removed.
pub send_logged-accounts :
    (entry : RequestLog) (c : Conn)
    → let insert = request_log_insert entry (null_if_zero entry.original_log_id) in
      ((c.db.done ≡ true)
        × (send_logged entry c ≡ record c { follow_ups = delete entry.reference c.follow_ups }))
      ⊎ (((length c.write_channel < 1024)
            × (send_logged entry c ≡ record c {
              write_channel =
                  c.write_channel
                  ++ (record {
                    reference = entry.reference;
                    mti = entry.mti;
                    stress_test_id = entry.stress_test_id;
                    raw_request = entry.request_message;
                  }
                      ∷ []);
              db = record c.db { writes = c.db.writes ++ (insert ∷ []) };
            }))
          ⊎ ((1024 ≤ length c.write_channel)
              × (send_logged entry c ≡ record c {
                follow_ups = delete entry.reference c.follow_ups;
                dropped_count = c.dropped_count + 1;
                db = record c.db {
                  writes =
                      (c.db.writes ++ (insert ∷ []))
                      ++ (request_log_delete entry.reference c.connection_id entry.mti ∷ []);
                };
              })))
unfolding send_logged queue_single entry_message forget add_request_log delete_request_log
    drop_message logged try_queue
send_logged-accounts entry c =
    let insert = request_log_insert entry (null_if_zero entry.original_log_id) in
    elim (Bool-cases c.db.done) [
      | inl shut ↦
          inl
            (shut, rw (send_logged, add_request_log, enqueue-closed c.db insert shut, forget) refl)
      | inr running ↦
          let w = record c.db { writes = c.db.writes ++ (insert ∷ []) } in
          let added = enqueue-running c.db insert running in
          elim (Bool-cases (ltb (length c.write_channel) write_channel_size)) [
            | inl room ↦ inr (
                inl (
                  ltb→lt _ _ room,
                  rw (send_logged, add_request_log, added, queue_single, try_queue, room) refl,
                ))
            | inr full ↦ inr (
                inr (
                  ltb→ge _ _ full,
                  rw
                      (
                        send_logged,
                        add_request_log,
                        added,
                        queue_single,
                        try_queue,
                        full,
                        drop_message,
                        forget,
                        delete_request_log,
                        enqueue-running w
                            (request_log_delete entry.reference c.connection_id entry.mti) running,
                      )
                      refl,
                ))
          ]
    ]
