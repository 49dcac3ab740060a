-- ===== src/Network/Conn/FollowUp.antt =====
-- What becomes of a request and of its follow-up: the row is logged before the message is queued.
use longclaw.Base.{
  ℕ, ◌+◌, ◌<◌, ◌≡◌, ◌∙◌, refl, ap, Bool, true, false, none, some, [], ◌∷◌, ◌++◌, Bytes, take,
  length, ltb, Bool-cases, inl, inr, ltb→lt, ltb→ge, ◌≤◌, ◌⊎◌, bytes_eq, bytes_eq_refl, List, ok,
}
use longclaw.Base.Dict.{load, store, load-store}
use longclaw.Database.{add_request_log}
use longclaw.Database.Queue.{enqueue-running, enqueue-closed}
use longclaw.Network.Mti.{match_key, response_mti}
use longclaw.Network.Mti.Laws.{match_key-response_mti}
use longclaw.Database.{
  null_if_zero, delete_request_log, request_log_insert, request_log_delete, scheduled_message_sent,
  mark_scheduled_message_sent,
}
use longclaw.Network.Conn.{
  Conn, Queued, PendingFollowUp, logged, drop_message, queue_follow_up, follow_up_message,
  try_queue, send_follow_up, follow_up_entry, stamp, write_stamped, write_next, write_channel_size,
  close,
}

-- A follow-up whose original is answered: its row is logged before it is queued, and then it is either
-- queued and marked as sent, or counted as dropped and its row deleted. On a closed database it is not sent.
pub send_follow_up-accounts :
    (now : ℕ) (reference : Bytes) (f : PendingFollowUp) (c : Conn)
    → let insert = request_log_insert (follow_up_entry c now reference f) none in
      ((c.db.done ≡ true) × (send_follow_up now reference f c ≡ c))
      ⊎ (((length c.write_channel < 1024)
            × (send_follow_up now reference f c ≡ record c {
              write_channel = c.write_channel ++ (follow_up_message reference f ∷ []);
              db = record c.db {
                writes =
                    (c.db.writes ++ (insert ∷ []))
                    ++ (scheduled_message_sent now reference c.connection_id ∷ []);
              };
            }))
          ⊎ ((1024 ≤ length c.write_channel)
              × (send_follow_up now reference f c ≡ record c {
                dropped_count = c.dropped_count + 1;
                db = record c.db {
                  writes =
                      (c.db.writes ++ (insert ∷ []))
                      ++ (request_log_delete reference c.connection_id f.mti ∷ []);
                };
              })))
unfolding send_follow_up queue_follow_up add_request_log mark_scheduled_message_sent
    delete_request_log drop_message logged try_queue null_if_zero
send_follow_up-accounts now reference f c =
    let insert = request_log_insert (follow_up_entry c now reference f) none in
    elim (Bool-cases c.db.done) [
      | inl shut ↦
          inl (shut, rw (send_follow_up, add_request_log, enqueue-closed c.db insert shut) refl)
      | inr running ↦
          let w = record c.db { writes = c.db.writes ++ (insert ∷ []) } in
          let added = enqueue-running c.db insert running in
          elim (Bool-cases (ltb (length c.write_channel) write_channel_size)) [
            | inl room ↦ inr (
                inl (
                  ltb→lt _ _ room,
                  rw
                      (
                        send_follow_up,
                        add_request_log,
                        added,
                        queue_follow_up,
                        try_queue,
                        room,
                        mark_scheduled_message_sent,
                        enqueue-running w (scheduled_message_sent now reference c.connection_id)
                            running,
                      )
                      refl,
                ))
            | inr full ↦ inr (
                inr (
                  ltb→ge _ _ full,
                  rw
                      (
                        send_follow_up,
                        add_request_log,
                        added,
                        queue_follow_up,
                        try_queue,
                        full,
                        drop_message,
                        delete_request_log,
                        enqueue-running w (request_log_delete reference c.connection_id f.mti)
                            running,
                      )
                      refl,
                ))
          ]
    ]

stamp-awaits :
    (now : ℕ) (q : Queued) (c : Conn) (key : Bytes)
    → bytes_eq q.reference [] ≡ false
    → match_key {E = ⊥} q.mti q.reference ≡ ok key
    → stamp now q c
      ≡ ok
          (record c { sent_times = store key (record { mti = q.mti; sent_at = now }) c.sent_times })
unfolding stamp
stamp-awaits now q c key tracked e = rw (tracked, e) refl

write_stamped-sent_times :
    (written : Bool) (q : Queued) (c : Conn) → (write_stamped written q c).sent_times ≡ c.sent_times
unfolding write_stamped close
write_stamped-sent_times true q c = refl
write_stamped-sent_times false q c = refl

-- The writer takes a request with a reference, and from then on the response type that the test client
-- gives for it, with the same reference, has the key under which the request is awaited, with its MTI
-- and the time of the write.
pub write_next-awaits :
    (now : ℕ) (written : Bool) (c : Conn) (q : Queued) (rest : List Queued) (message r : Bytes)
    → c.write_channel ≡ q ∷ rest
    → bytes_eq q.reference [] ≡ false
    → q.mti ≡ take 4 message
    → response_mti message ≡ some r
    → (c' : Conn) × (key : Bytes) × (write_next now written c ≡ ok c')
      × (match_key {E = ⊥} r q.reference ≡ ok key)
      × (load key c'.sent_times ≡ some (record { mti = q.mti; sent_at = now }))
unfolding write_next
write_next-awaits now written c q rest message r queued tracked is_mti answers =
    let (key, e, e') = match_key-response_mti message q.reference r answers in
    let taken = record c { write_channel = rest } in
    let stored = store key (record { mti = q.mti; sent_at = now }) c.sent_times in
    let e2 =
      stamp-awaits now q taken key tracked (ap (λ t. match_key {E = ⊥} t q.reference) is_mti ∙ e) in
    let awaiting : Conn = record taken { sent_times = stored } in
    (
      write_stamped written q awaiting,
      key,
      rw (write_next, queued, e2) refl,
      e',
      ap (load key) (write_stamped-sent_times written q awaiting)
          ∙ load-store key key (record { mti = q.mti; sent_at = now }) c.sent_times
          ∙ rw (bytes_eq_refl key) refl,
    )
