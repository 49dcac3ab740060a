-- ===== src/Network/Conn/Sound/Queue.antt =====
-- What queueing a message and matching a response keep: the bounded channel and the counted messages.
use mathlib.Core.Path.{subst}
use longclaw.Base.{
  ℕ, ◌+◌, ◌≤◌, ◌≡◌, refl, arith, Option, none, some, [], ◌∷◌, ◌++◌, Bytes, length, length-append,
  ltb, ltb→lt, Bool-cases, inl, inr, Go, ok, err, panic,
}
use longclaw.Base.Dict.{delete, load}
use longclaw.Database.{
  Writer, DbError, add_request_log, delete_request_log, mark_scheduled_message_sent,
  update_response_time,
}
use longclaw.Iso.Message.{Message}
use longclaw.Iso.Edit.{get_field}
use longclaw.Network.Conn.{
  Times, Conn, Queued, PendingFollowUp, SentRequest, write_channel_size, try_queue, logged,
  drop_message, queue_follow_up, follow_up_message, send_follow_up, follow_up_entry, match_response,
  handle_response,
}

-- The channel has room for what it holds, and each message that was counted is on the socket, but for the
-- messages that are counted elsewhere and the frames of other origin.
pub record IsSound (apart foreign : ℕ) (c : Conn) : Type 0 where
  pub bounded : length c.write_channel ≤ write_channel_size
  pub counted : length c.socket + apart ≡ c.sent_count + foreign

-- The parts of the state that soundness speaks of.
abbrev pub Same : Conn → Conn → Type 0
Same c c' =
    (c'.write_channel ≡ c.write_channel) × (c'.socket ≡ c.socket) × (c'.sent_count ≡ c.sent_count)

logged-Same : (c : Conn) (r : Go DbError Writer) → Same c (logged c r)
unfolding logged
logged-Same c (ok w) = (refl, refl, refl)
logged-Same c (err e) = (refl, refl, refl)
logged-Same c panic = (refl, refl, refl)

module _ {apart foreign : ℕ} where
  pub Same-IsSound : (c c' : Conn) → Same c c' → IsSound apart foreign c → IsSound apart foreign c'
  Same-IsSound c c' (e, e', e'') p = record {
    bounded = rw e p.bounded;
    counted = rw (e', e'') p.counted;
  }

  pub try_queue-IsSound :
      (q : Queued) (c c' : Conn)
      → try_queue q c ≡ some c'
      → IsSound apart foreign c
      → IsSound apart foreign c'
  unfolding try_queue
  try_queue-IsSound q c c' e p =
      elim (Bool-cases (ltb (length c.write_channel) write_channel_size)) [
        | inl room ↦
            let queued : some (record c { write_channel = c.write_channel ++ (q ∷ []) }) ≡ some c' =
              rw room at e in
            subst (IsSound apart foreign) (some-injective queued) (record {
              bounded =
                  rw (length-append c.write_channel (q ∷ [])) (omega (arith, ltb→lt _ _ room));
              counted = p.counted;
            })
        | inr full ↦ absurd (no (rw full at e))
      ]
    where
      no : ◌≡◌ {A = Option Conn} none (some c') → ⊥
      no h = cc

      some-injective : {a b : Conn} → some a ≡ some b → a ≡ b
      some-injective h = cc

  pub logged-IsSound :
      (c : Conn) (r : Go DbError Writer)
      → IsSound apart foreign c
      → IsSound apart foreign (logged c r)
  logged-IsSound c r p = Same-IsSound c _ (logged-Same c r) p

  pub drop_message-IsSound :
      (reference mti : Bytes) (c : Conn)
      → IsSound apart foreign c
      → IsSound apart foreign (drop_message reference mti c)
  unfolding drop_message
  drop_message-IsSound reference mti c p =
      logged-IsSound (record c { dropped_count = c.dropped_count + 1 })
        (delete_request_log c.db reference c.connection_id mti)
        (Same-IsSound c _ (refl, refl, refl) p)

  queue_follow_up-IsSound :
      (now : ℕ) (reference : Bytes) (f : PendingFollowUp) (c : Conn)
      → IsSound apart foreign c
      → IsSound apart foreign (queue_follow_up now reference f c)
  unfolding queue_follow_up
  queue_follow_up-IsSound now reference f c p =
      by_room (try_queue (follow_up_message reference f) c) refl
    where
      by_room :
          (o : Option Conn)
          → try_queue (follow_up_message reference f) c ≡ o
          → IsSound apart foreign (elim o [
            | some c' ↦ logged c' (mark_scheduled_message_sent c'.db reference c'.connection_id now)
            | none ↦ drop_message reference f.mti c
          ])
      by_room (some c') e = logged-IsSound c' _ (try_queue-IsSound _ c c' e p)
      by_room none e = drop_message-IsSound reference f.mti c p

  send_follow_up-IsSound :
      (now : ℕ) (reference : Bytes) (f : PendingFollowUp) (c : Conn)
      → IsSound apart foreign c
      → IsSound apart foreign (send_follow_up now reference f c)
  unfolding send_follow_up
  send_follow_up-IsSound now reference f c p =
      by_log (add_request_log c.db (follow_up_entry c now reference f))
    where
      by_log :
          (r : Go DbError Writer)
          → IsSound apart foreign (elim r [
            | ok w ↦ queue_follow_up now reference f (record c { db = w })
            | err e ↦ c
            | panic ↦ c
          ])
      by_log (ok w) =
          queue_follow_up-IsSound now reference f _ (Same-IsSound c _ (refl, refl, refl) p)
      by_log (err e) = p
      by_log panic = p

  match_response-IsSound :
      (t : Times) (m : Message) (reference : Bytes) (request : SentRequest) (c : Conn)
      → IsSound apart foreign c
      → IsSound apart foreign (match_response t m reference request c)
  unfolding match_response
  match_response-IsSound t m reference request c p =
      by_follow_up _
        (logged-IsSound c
          (update_response_time c.db reference c.connection_id request.mti request.sent_at
            t.received_at (get_field m 38) (get_field m 37))
          p)
        (load reference
          (logged c (
            update_response_time c.db reference c.connection_id request.mti request.sent_at
              t.received_at (get_field m 38) (get_field m 37))).follow_ups)
    where
      by_follow_up :
          (u : Conn)
          → IsSound apart foreign u
          → (o : Option PendingFollowUp)
          → IsSound apart foreign (elim o [
            | none ↦ u
            | some f ↦
                send_follow_up t.followed_at reference f
                  (record u { follow_ups = delete reference u.follow_ups })
          ])
      by_follow_up u p none = p
      by_follow_up u p (some f) =
          send_follow_up-IsSound t.followed_at reference f _ (Same-IsSound u _ (refl, refl, refl) p)

  pub handle_response-IsSound :
      (t : Times) (m : Message) (key : Bytes) (c : Conn)
      → IsSound apart foreign c
      → IsSound apart foreign (handle_response t m key c)
  unfolding handle_response
  handle_response-IsSound t m key c p = by_request (load key c.sent_times)
    where
      by_request :
          (o : Option SentRequest)
          → IsSound apart foreign (elim o [
            | none ↦ record c { unmatched_count = c.unmatched_count + 1 }
            | some request ↦
                match_response t m
                  (get_field m 36)
                  request
                  (record c { sent_times = delete key c.sent_times })
          ])
      by_request none = Same-IsSound c _ (refl, refl, refl) p
      by_request (some request) =
          match_response-IsSound t m _ request _ (Same-IsSound c _ (refl, refl, refl) p)
