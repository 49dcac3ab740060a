-- ===== src/Network/Refund.antt =====
-- network/server/refund.go: a logged sale is sent again as a refund.
use longclaw.Base.{ℕ, none, some, ◌++◌, Bytes, codes, Go, ok, err, panic, ◌>>=◌, slice_from}
use longclaw.Database.{RequestLog, add_request_log}
use longclaw.Database.Refunds.{RefundCandidate}
use longclaw.Iso.Spec.{IsoSpec}
use longclaw.Iso.Message.{Message, Error, new_iso8583_message}
use longclaw.Iso.Edit.{get_field, set_field}
use longclaw.Network.Conn.{Conn, Queued, try_queue, drop_message}
use longclaw.Network.Load.{replace_field, new_request_log, entry_message}

-- `transmitted` is the time as `0102150405`. The trace number is cut from the new reference.
unfoldable pub refund_fields : (transmitted reference : Bytes) → Message → Go Error Message
unfolding replace_field
refund_fields transmitted reference refund = do
  kind ← slice_from (get_field refund 2) 2
  let refund1 = replace_field 6 transmitted (set_field refund 2 (codes "20" ++ kind))
  trace ← slice_from reference 6
  ok (set_field (replace_field 10 trace refund1) 36 reference)

unfoldable pub queue_refund : Queued → Conn → Conn
queue_refund q c = elim (try_queue q c) [ some c' ↦ c' | none ↦ drop_message q.reference q.mti c ]

unfoldable pub send_refund_logged : RequestLog → Conn → Conn
unfolding queue_refund
send_refund_logged entry c = elim (add_request_log c.db entry) [
  | ok w ↦ queue_refund (entry_message entry) (record c { db = w })
  | err e ↦ c
  | panic ↦ c
]

unfoldable pub refund_entry :
    (stress_test_id now : ℕ) (transmitted reference connection_id : Bytes) (log_id : ℕ)
    → Message
    → Go Error RequestLog
unfolding refund_fields
refund_entry stress_test_id now transmitted reference connection_id log_id sale = do
  refund ← refund_fields transmitted reference sale
  new_request_log stress_test_id now reference connection_id log_id refund

unfoldable pub send_refund :
    IsoSpec
    → (stress_test_id now : ℕ) → (transmitted reference : Bytes) → RefundCandidate
    → Conn
    → Go Error Conn
unfolding refund_entry send_refund_logged
send_refund spec stress_test_id now transmitted reference original c =
    elim (new_iso8583_message original.request_message spec) [
      | ok sale ↦ (do
        entry ←
            refund_entry stress_test_id now transmitted reference c.connection_id original.log_id
              sale
        ok (send_refund_logged entry c))
      | err e ↦ ok c
      | panic ↦ panic
    ]
