-- ===== src/Network/Conn/Sound/Sending.antt =====
-- What the load generator does to a connection keeps it sound: `sendSingleMessage` of network/server/iso_server.go and
-- `sendRefund` of network/server/refund.go.
use mathlib.Core.Path.{subst}
use longclaw.Base.{
  ℕ, ◌≡◌, refl, Option, none, some, Bytes, Go, ok, err, panic, ◌>>=◌, >>=-eq-ok, ok-injective,
}
use longclaw.Database.{Writer, DbError, RequestLog, add_request_log, add_scheduled_message}
use longclaw.Iso.Format.{format_iso}
use longclaw.Database.Refunds.{RefundCandidate}
use longclaw.Iso.Spec.{IsoSpec}
use longclaw.Iso.Edit.{get_mti}
use longclaw.Iso.Message.{Message, Error, new_iso8583_message}
use longclaw.Network.Conn.{Conn, Queued, try_queue, drop_message}
use longclaw.Network.Conn.Sound.Queue.{
  IsSound, Same-IsSound, try_queue-IsSound, logged-IsSound, drop_message-IsSound,
}
use longclaw.Network.Load.{
  Card, IsoMsgTemplate, entry_message, forget, queue_single, send_logged, register, new_request_log,
  send_prepared, prepare, send_single_message,
}
use longclaw.Network.Refund.{refund_entry, queue_refund, send_refund_logged, send_refund}

module _ {apart foreign : ℕ} where
  queue_single-IsSound :
      (q : Queued) (c : Conn) → IsSound apart foreign c → IsSound apart foreign (queue_single q c)
  unfolding queue_single forget
  queue_single-IsSound q c p = by_room (try_queue q c) refl
    where
      by_room :
          (o : Option Conn)
          → try_queue q c ≡ o
          → IsSound apart foreign (elim o [
            | some c' ↦ c'
            | none ↦ drop_message q.reference q.mti (forget q.reference c)
          ])
      by_room (some c') e = try_queue-IsSound q c c' e p
      by_room none e =
          drop_message-IsSound q.reference q.mti _ (Same-IsSound c _ (refl, refl, refl) p)

  queue_refund-IsSound :
      (q : Queued) (c : Conn) → IsSound apart foreign c → IsSound apart foreign (queue_refund q c)
  unfolding queue_refund
  queue_refund-IsSound q c p = by_room (try_queue q c) refl
    where
      by_room :
          (o : Option Conn)
          → try_queue q c ≡ o
          → IsSound apart foreign
              (elim o [ some c' ↦ c' | none ↦ drop_message q.reference q.mti c ])
      by_room (some c') e = try_queue-IsSound q c c' e p
      by_room none e = drop_message-IsSound q.reference q.mti c p

  send_logged-IsSound :
      (entry : RequestLog) (c : Conn)
      → IsSound apart foreign c
      → IsSound apart foreign (send_logged entry c)
  unfolding send_logged forget
  send_logged-IsSound entry c p = by_log (add_request_log c.db entry)
    where
      by_log :
          (r : Go DbError Writer)
          → IsSound apart foreign (elim r [
            | ok w ↦ queue_single (entry_message entry) (record c { db = w })
            | err e ↦ forget entry.reference c
            | panic ↦ c
          ])
      by_log (ok w) =
          queue_single-IsSound (entry_message entry) _ (Same-IsSound c _ (refl, refl, refl) p)
      by_log (err e) = Same-IsSound c _ (refl, refl, refl) p
      by_log panic = p

  send_refund_logged-IsSound :
      (entry : RequestLog) (c : Conn)
      → IsSound apart foreign c
      → IsSound apart foreign (send_refund_logged entry c)
  unfolding send_refund_logged
  send_refund_logged-IsSound entry c p = by_log (add_request_log c.db entry)
    where
      by_log :
          (r : Go DbError Writer)
          → IsSound apart foreign (elim r [
            | ok w ↦ queue_refund (entry_message entry) (record c { db = w })
            | err e ↦ c
            | panic ↦ c
          ])
      by_log (ok w) =
          queue_refund-IsSound (entry_message entry) _ (Same-IsSound c _ (refl, refl, refl) p)
      by_log (err e) = p
      by_log panic = p

  register-IsSound :
      (stress_test_id now : ℕ) (reference : Bytes) (scheduled : Option Message) (c c' : Conn)
      → register stress_test_id now reference scheduled c ≡ ok c'
      → IsSound apart foreign c
      → IsSound apart foreign c'
  unfolding register
  register-IsSound stress_test_id now reference none c c' e p =
      subst (IsSound apart foreign) (ok-injective e) p
  register-IsSound stress_test_id now reference (some scheduled) c c' e p =
      let (mti, _, e1) = >>=-eq-ok (get_mti scheduled) _ e in
      let (text, _, e2) = >>=-eq-ok (format_iso scheduled) _ e1 in
      subst (IsSound apart foreign) (ok-injective e2) (
        Same-IsSound _ _ (refl, refl, refl)
          (logged-IsSound c
            (add_scheduled_message c.db stress_test_id now reference c.connection_id text) p))

  pub send_single_message-IsSound :
      (spec : IsoSpec) (stress_test_id created_at now : ℕ) (reference : Bytes)
      (template : IsoMsgTemplate) (card : Card) (c c' : Conn)
      → send_single_message spec stress_test_id created_at now reference template card c ≡ ok c'
      → IsSound apart foreign c
      → IsSound apart foreign c'
  unfolding send_single_message send_prepared
  send_single_message-IsSound spec stress_test_id created_at now reference template card c c' e p =
      by_prepared (prepare spec card reference template) e
    where
      sent :
          (m : Message) (scheduled : Option Message)
          → send_prepared stress_test_id created_at now reference (m, scheduled) c ≡ ok c'
          → IsSound apart foreign c'
      sent m scheduled e =
          let (registered, e1, e2) =
            >>=-eq-ok (register stress_test_id created_at reference scheduled c) _ e in
          let (entry, _, e3) =
            >>=-eq-ok (new_request_log stress_test_id now reference c.connection_id 0 m) _ e2 in
          subst (IsSound apart foreign) (ok-injective e3) (
            send_logged-IsSound entry registered
              (register-IsSound stress_test_id created_at reference scheduled c registered e1 p))

      by_prepared :
          (r : Go Error (Message × Option Message))
          → (elim r [
            | ok prepared ↦ send_prepared stress_test_id created_at now reference prepared c
            | err e ↦ ok c
            | panic ↦ panic
          ])
            ≡ ok c'
          → IsSound apart foreign c'
      by_prepared (ok (m, scheduled)) e = sent m scheduled e
      by_prepared (err x) e = subst (IsSound apart foreign) (ok-injective e) p
      by_prepared panic e = cc

  pub send_refund-IsSound :
      (spec : IsoSpec) (stress_test_id now : ℕ) (transmitted reference : Bytes)
      (original : RefundCandidate) (c c' : Conn)
      → send_refund spec stress_test_id now transmitted reference original c ≡ ok c'
      → IsSound apart foreign c
      → IsSound apart foreign c'
  unfolding send_refund
  send_refund-IsSound spec stress_test_id now transmitted reference original c c' e p =
      by_sale (new_iso8583_message original.request_message spec) e
    where
      by_sale :
          (r : Go Error Message)
          → (elim r [
            | ok sale ↦
                refund_entry stress_test_id now transmitted reference c.connection_id
                  original.log_id sale
                >>= λ entry. ok (send_refund_logged entry c)
            | err e ↦ ok c
            | panic ↦ panic
          ])
            ≡ ok c'
          → IsSound apart foreign c'
      by_sale (ok sale) e =
          let (entry, _, e1) =
            >>=-eq-ok
              (refund_entry stress_test_id now transmitted reference c.connection_id original.log_id
                sale)
              _ e in
          subst (IsSound apart foreign) (ok-injective e1) (send_refund_logged-IsSound entry c p)
      by_sale (err x) e = subst (IsSound apart foreign) (ok-injective e) p
      by_sale panic e = cc
