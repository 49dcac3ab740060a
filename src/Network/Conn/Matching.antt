-- ===== src/Network/Conn/Matching.antt =====
-- Requests and their responses: what is awaited, and that each request is answered once.
use longclaw.Base.{
  ℕ, ◌+◌, ◌≡◌, ◌∙◌, refl, ap, false, Option, none, some, [], ◌∷◌, ◌++◌, Bytes, length, ltb,
  Bool-cases, inl, inr, bytes_eq, bytes_eq_refl, if◌then◌else◌, Go, ok, err, panic,
}
use longclaw.Base.Dict.{Dict, delete, load, load-delete}
use longclaw.Database.{Writer, DbError, add_request_log}
use longclaw.Iso.Message.{Message}
use longclaw.Iso.Edit.{get_field}
use longclaw.Database.{update_response_time, delete_request_log, mark_scheduled_message_sent}
use longclaw.Network.Conn.{
  Times, Conn, SentRequest, PendingFollowUp, logged, drop_message, queue_follow_up,
  follow_up_message, try_queue, send_follow_up, follow_up_entry, match_response, handle_response,
  write_channel_size,
}

-- What a matched response does with the requests awaited: nothing.
abbrev Awaits : Dict SentRequest → Conn → Type 0
Awaits sent c = c.sent_times ≡ sent

logged-Awaits :
    (sent : Dict SentRequest) (c : Conn) (r : Go DbError Writer)
    → Awaits sent c
    → Awaits sent (logged c r)
unfolding logged
logged-Awaits sent c (ok w) p = p
logged-Awaits sent c (err e) p = p
logged-Awaits sent c panic p = p

queue_follow_up-Awaits :
    (sent : Dict SentRequest) (now : ℕ) (reference : Bytes) (f : PendingFollowUp) (c : Conn)
    → Awaits sent c
    → Awaits sent (queue_follow_up now reference f c)
unfolding queue_follow_up try_queue drop_message
queue_follow_up-Awaits sent now reference f c p =
    elim (Bool-cases (ltb (length c.write_channel) write_channel_size)) [
      | inl room ↦
          let c' = record c {
            write_channel = c.write_channel ++ (follow_up_message reference f ∷ []);
          } in
          rw (queue_follow_up, try_queue, room)
            (logged-Awaits sent c' (mark_scheduled_message_sent c.db reference c.connection_id now)
              p)
      | inr full ↦
          let c' = record c { dropped_count = c.dropped_count + 1 } in
          rw (queue_follow_up, try_queue, full)
            (logged-Awaits sent c' (delete_request_log c.db reference c.connection_id f.mti) p)
    ]

send_follow_up-Awaits :
    (sent : Dict SentRequest) (now : ℕ) (reference : Bytes) (f : PendingFollowUp) (c : Conn)
    → Awaits sent c
    → Awaits sent (send_follow_up now reference f c)
unfolding send_follow_up
send_follow_up-Awaits sent now reference f c p =
    by_log (add_request_log c.db (follow_up_entry c now reference f))
  where
    by_log :
        (r : Go DbError Writer)
        → Awaits sent (elim r [
          | ok w ↦ queue_follow_up now reference f (record c { db = w })
          | err e ↦ c
          | panic ↦ c
        ])
    by_log (ok w) = queue_follow_up-Awaits sent now reference f (record c { db = w }) p
    by_log (err e) = p
    by_log panic = p

match_response-Awaits :
    (t : Times) (m : Message) (reference : Bytes) (request : SentRequest) (c : Conn)
    → (match_response t m reference request c).sent_times ≡ c.sent_times
unfolding match_response
match_response-Awaits t m reference request c =
    let r =
      update_response_time c.db reference c.connection_id request.mti request.sent_at t.received_at
        (get_field m 38) (get_field m 37) in
    by_follow_up (logged c r) (logged-Awaits c.sent_times c r refl)
      (load reference (logged c r).follow_ups)
  where
    by_follow_up :
        (u : Conn)
        → Awaits c.sent_times u
        → (o : Option PendingFollowUp)
        → Awaits c.sent_times (elim o [
          | none ↦ u
          | some f ↦
              send_follow_up t.followed_at reference f
                (record u { follow_ups = delete reference u.follow_ups })
        ])
    by_follow_up u p none = p
    by_follow_up u p (some f) =
        send_follow_up-Awaits c.sent_times t.followed_at reference f
          (record u { follow_ups = delete reference u.follow_ups }) p

-- A request is answered once: after its response, a message with the same key finds no request, and
-- changes nothing but the count of the unmatched. Other keys are still awaited.
pub handle_response-once :
    (t t' : Times) (m m' : Message) (key : Bytes) (request : SentRequest) (c : Conn)
    → load key c.sent_times ≡ some request
    → let c' = handle_response t m key c in
      (handle_response t' m' key c' ≡ record c' { unmatched_count = c'.unmatched_count + 1 })
      × ((other : Bytes)
          → bytes_eq key other ≡ false
          → load other c'.sent_times ≡ load other c.sent_times)
unfolding handle_response
handle_response-once t t' m m' key request c e =
    let awaited : (handle_response t m key c).sent_times ≡ delete key c.sent_times =
      rw (handle_response, e)
        (match_response-Awaits t m (get_field m 36) request
          (record c { sent_times = delete key c.sent_times })) in
    (
      again (handle_response t m key c)
          (ap (load key) awaited ∙ load-delete key key c.sent_times ∙ gone),
      λ other ne. ap (load other) awaited ∙ load-delete key other c.sent_times ∙ rw ne refl,
    )
  where
    gone : (if bytes_eq key key then none else load key c.sent_times) ≡ none
    gone = rw (bytes_eq_refl key) refl

    again :
        (c' : Conn)
        → load key c'.sent_times ≡ none
        → handle_response t' m' key c' ≡ record c' { unmatched_count = c'.unmatched_count + 1 }
    again c' e = unfold handle_response in rw (handle_response, e) refl
