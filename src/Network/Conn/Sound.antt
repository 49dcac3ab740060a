-- ===== src/Network/Conn/Sound.antt =====
-- The bounded channel and the counted messages, which every order of the steps keeps.
pub mod Queue
pub mod Sending
use mathlib.Core.Path.{subst}
use longclaw.Base.{
  slice, ℕ, ◌+◌, ◌≤◌, ◌<◌, ◌≡◌, ◌∙◌, refl, sym, ap, arith, Bool, true, false, Option, none, some,
  List, [], ◌∷◌, ◌++◌, Bytes, length, length-append, ltb, ltb→lt, if◌then◌else◌, Bool-cases, inl,
  inr, Go, ok, err, panic, ◌>>=◌, ◌||◌, ◌&&◌, codes, ok-injective, >>=-eq-ok, bytes_eq, take,
  Returns, Returns-bind, Returns-ok,
}
use longclaw.Base.Dict.{delete, load, store}
use longclaw.Database.{
  Writer, DbError, add_request_log, delete_request_log, mark_scheduled_message_sent,
  update_response_time,
}
use longclaw.Iso.Spec.{IsoSpec}
use longclaw.Iso.Message.{Message, Error, new_iso8583_message}
use longclaw.Network.Frame.{frame}
use longclaw.Network.Mti.{is_request_mti, is_response_mti, match_key}
use longclaw.Network.Response.{Env, build_response}
use longclaw.Iso.Format.{format_iso}
use longclaw.Iso.Edit.{get_field}
use longclaw.Network.Conn.{
  Times, Conn, Queued, PendingFollowUp, SentRequest, write_channel_size, try_queue, logged,
  drop_message, queue_follow_up, follow_up_message, send_follow_up, follow_up_entry, match_response,
  handle_response, dispatch, parse_and_dispatch, waiting_test, deliver, handle_message,
  answer_message, queue_answer, respond, close, stamp, write_stamped, write_next, Stuck,
}
use longclaw.Network.Conn.Steps.{Step, Steps, reads, responds, writes, sends, closes, stays, goes}
use longclaw.Network.Conn.Sound.Queue.{
  IsSound, Same, Same-IsSound, try_queue-IsSound, handle_response-IsSound,
}

stamp-Same : (now : ℕ) (q : Queued) (c c' : Conn) → stamp now q c ≡ ok c' → Same c c'
unfolding stamp
stamp-Same now q c c' e = elim (Bool-cases (bytes_eq q.reference [])) [
  | inl untracked ↦ subst (Same c) (ok-injective (rw untracked at e)) (refl, refl, refl)
  | inr tracked ↦
      let (key, _, e') = >>=-eq-ok (match_key q.mti q.reference) _ (rw tracked at e) in
      subst (Same c) (ok-injective e') (refl, refl, refl)
]

module _ {apart foreign : ℕ} where
  dispatch-IsSound :
      (t : Times) (mti : Bytes) (m : Message) (c c' : Conn)
      → dispatch t mti m c ≡ ok c'
      → IsSound apart foreign c
      → IsSound apart foreign c'
  unfolding dispatch
  dispatch-IsSound t mti m c c' e p = elim (Bool-cases (is_request_mti mti)) [
    | inl is_request ↦
        subst (IsSound apart foreign) (ok-injective (rw is_request at e))
          (Same-IsSound c (record c { responding = m ∷ c.responding }) (refl, refl, refl) p)
    | inr is_other ↦ by_response (rw is_other at e)
  ]
    where
      by_response :
          ◌≡◌ {A = Go Stuck Conn}
            (if is_response_mti mti
              then (match_key mti (get_field m 36) >>= λ key. ok (handle_response t m key c))
              else ok c)
            (ok c')
          → IsSound apart foreign c'
      by_response e = elim (Bool-cases (is_response_mti mti)) [
        | inl is_response ↦
            let (key, _, e') = >>=-eq-ok (match_key mti (get_field m 36)) _ (rw is_response at e) in
            subst (IsSound apart foreign) (ok-injective e') (handle_response-IsSound t m key c p)
        | inr unknown ↦ subst (IsSound apart foreign) (ok-injective (rw unknown at e)) p
      ]

  parse_and_dispatch-IsSound :
      (spec : IsoSpec) (t : Times) (mti msg : Bytes) (c c' : Conn)
      → parse_and_dispatch spec t mti msg c ≡ ok c'
      → IsSound apart foreign c
      → IsSound apart foreign c'
  unfolding parse_and_dispatch
  parse_and_dispatch-IsSound spec t mti msg c c' e p = by_result (new_iso8583_message msg spec) e
    where
      by_result :
          (r : Go Error Message)
          → (elim r [ ok m ↦ dispatch t mti m c | err x ↦ ok c | panic ↦ panic ]) ≡ ok c'
          → IsSound apart foreign c'
      by_result (ok m) e = dispatch-IsSound t mti m c c' e p
      by_result (err x) e = subst (IsSound apart foreign) (ok-injective e) p
      by_result panic e = cc

  deliver-IsSound :
      (spec : IsoSpec) (t : Times) (mti msg : Bytes) (c c' : Conn)
      (waiting : Option (Bytes × Option Bytes))
      → deliver spec t mti msg c waiting ≡ ok c'
      → IsSound apart foreign c
      → IsSound apart foreign c'
  unfolding deliver
  deliver-IsSound spec t mti msg c c' none e p = parse_and_dispatch-IsSound spec t mti msg c c' e p
  deliver-IsSound spec t mti msg c c' (some (stan, none)) e p =
      subst (IsSound apart foreign) (ok-injective e) (
        Same-IsSound c (record c { conn_tests = store stan (some msg) c.conn_tests })
          (refl, refl, refl) p)
  deliver-IsSound spec t mti msg c c' (some (stan, some unread)) e p = cc

  handle_message-IsSound :
      (spec : IsoSpec) (t : Times) (msg : Bytes) (c c' : Conn)
      → handle_message spec t msg c ≡ ok c'
      → IsSound apart foreign c
      → IsSound apart foreign c'
  unfolding handle_message
  handle_message-IsSound spec t msg c c' e p = elim (Bool-cases (ltb (length msg) 20)) [
    | inl short ↦ subst (IsSound apart foreign) (ok-injective (rw short at e)) p
    | inr enough ↦
        let (mti, _, read) = >>=-eq-ok (slice {E = Stuck} msg 0 4) _ (rw enough at e) in
        let (waiting, _, delivered) = >>=-eq-ok (waiting_test mti msg c) _ read in
        deliver-IsSound spec t mti msg c c' waiting delivered p
  ]

  queue_answer-IsSound :
      (raw : Bytes) (c : Conn)
      → IsSound apart foreign c
      → IsSound apart foreign (queue_answer raw c)
  unfolding queue_answer
  queue_answer-IsSound raw c p = by_room (try_queue (answer_message raw) c) refl
    where
      by_room :
          (o : Option Conn)
          → try_queue (answer_message raw) c ≡ o
          → IsSound apart foreign
              (elim o [ some c' ↦ c' | none ↦ record c { dropped_count = c.dropped_count + 1 } ])
      by_room (some c') e = try_queue-IsSound (answer_message raw) c c' e p
      by_room none e =
          Same-IsSound c (record c { dropped_count = c.dropped_count + 1 }) (refl, refl, refl) p

  respond-IsSound :
      (env : Env) (request : Message) (c c' : Conn)
      → respond env request c ≡ ok c'
      → IsSound apart foreign c
      → IsSound apart foreign c'
  unfolding respond
  respond-IsSound env request c c' e p =
      let (resp, _, e1) = >>=-eq-ok (build_response env request) _ e in
      let (raw, _, e2) = >>=-eq-ok (format_iso resp) _ e1 in
      subst (IsSound apart foreign) (ok-injective e2) (queue_answer-IsSound raw c p)

  write_stamped-IsSound :
      (written : Bool) (q : Queued) (c : Conn)
      → IsSound apart foreign c
      → IsSound apart foreign (write_stamped written q c)
  unfolding write_stamped close
  write_stamped-IsSound true q c p = record {
    bounded = p.bounded;
    counted = omega (arith, length-append c.socket (frame q.raw_request ∷ []), p.counted);
  }
  write_stamped-IsSound false q c p =
      Same-IsSound c (record c { closed = true }) (refl, refl, refl) p

  write_next-IsSound :
      (now : ℕ) (written : Bool) (c c' : Conn)
      → write_next now written c ≡ ok c'
      → IsSound apart foreign c
      → IsSound apart foreign c'
  unfolding write_next
  write_next-IsSound now written c c' e p = by_queue c.write_channel e p.bounded
    where
      by_queue :
          (qs : List Queued)
          → (elim qs [
            | [] ↦ ok c
            | q ∷ rest ↦ stamp now q (record c { write_channel = rest }) >>= λ stamped.
                ok (write_stamped written q stamped)
          ])
            ≡ ok c'
          → length qs ≤ write_channel_size
          → IsSound apart foreign c'
      by_queue [] e h = subst (IsSound apart foreign) (ok-injective e) p
      by_queue (q ∷ rest) e h =
          let (stamped, e1, e2) = >>=-eq-ok (stamp now q (record c { write_channel = rest })) _ e in
          let taken : IsSound apart foreign (record c { write_channel = rest }) = record {
            bounded = omega (arith, h);
            counted = p.counted;
          } in
          subst (IsSound apart foreign) (ok-injective e2) (
            write_stamped-IsSound written q stamped
              (Same-IsSound _ stamped (stamp-Same now q _ stamped e1) taken))

  pub Step-IsSound :
      {spec : IsoSpec} {env : Env} {c c' : Conn}
      → Step spec env c c'
      → IsSound apart foreign c
      → IsSound apart foreign c'
  Step-IsSound {spec} {env} {c} {c'} (reads t msg e) p = handle_message-IsSound spec t msg c c' e p
  Step-IsSound {spec} {env} {c} {c'} (responds before after request e e') p =
      respond-IsSound env request (record c { responding = before ++ after }) c' e'
        (Same-IsSound c (record c { responding = before ++ after }) (refl, refl, refl) p)
  Step-IsSound {spec} {env} {c} {c'} (writes now written e) p =
      write_next-IsSound now written c c' e p
  Step-IsSound {spec} {env} {c} {c'} (sends q e) p = try_queue-IsSound q c c' e p
  Step-IsSound {spec} {env} {c} closes p =
      unfold close in Same-IsSound c (record c { closed = true }) (refl, refl, refl) p

  -- Whatever the order in which messages arrive, requests are answered, messages are queued, written or
  -- fail to be written, and the connection is closed: the write channel never holds more than its 1024
  -- messages if it does not at first, and the frames on the socket and the count of sent messages differ
  -- by as much as at first.
  pub Steps-IsSound :
      (spec : IsoSpec) (env : Env) (c c' : Conn)
      → Steps spec env c c'
      → IsSound apart foreign c
      → IsSound apart foreign c'
  Steps-IsSound spec env c c' stays p = p
  Steps-IsSound spec env c c' (goes {c' = before} first last) p =
      Step-IsSound last (Steps-IsSound spec env c before first p)
