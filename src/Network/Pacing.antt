-- ===== src/Network/Pacing.antt =====
-- `RunStress` of network/server/iso_server.go and `RunRefund` of network/server/refund.go: how many messages are sent at each
-- tick, and to which connections. A tick has the number of steps that are due at its time, a product in
-- floating point, and `RunStress` reads the connections at each.
pub mod Due
pub mod Refunding
use longclaw.Base.{
  ℕ, zero, suc, ◌+◌, ◌-◌, ◌/◌, ◌%◌, min, Bool, true, false, not, ◌&&◌, ◌||◌, Option, none, some,
  List, [], ◌∷◌, ◌++◌, foldl, length, take, get_elem?, Bytes, ltb, leb, if◌then◌else◌, Go, ok, err,
  panic, ◌>>=◌, ℤ, pos, negsuc,
}
use longclaw.Base.Order.{int_le}
use longclaw.Database.{Writer, DbError, set_total_requests}
use longclaw.Database.StressTests.{StressTest}
use longclaw.Database.Refunds.{RefundCandidate, ScanError}
use longclaw.Network.Targets.{queue_steps}

-- `time.Second / time.Duration(rate)`, of at least a millisecond, in nanoseconds.
unfoldable pub interval {ℓ} : {E : Type ℓ} → ℤ → Go E ℕ
interval (pos zero) = panic
interval (pos (suc n)) =
    ok (if ltb (1000000000 / suc n) 1000000 then 1000000 else 1000000000 / suc n)
interval (negsuc n) = ok 1000000

-- The writer after a call whose error is only logged.
abbrev pub written : Writer → Go DbError Writer → Writer
written w (ok w') = w'
written w (err e) = w
written w panic = w

-- The variables of the loop: `jobs` are the connections that got a message, in order.
pub record Pace {ℓ} (A : Type ℓ) : Type ℓ where
  pub steps : ℕ
  pub next : ℕ
  pub jobs : List A

pub data RefundError : Type 0 where
  not_loaded : RefundError
  no_clients : RefundError

-- `sent` refunds are sent, each over its connection.
pub record Sending {ℓ} (A : Type ℓ) : Type ℓ where
  pub sent : ℕ
  pub sends : List (A × RefundCandidate)

module _ {ℓ} {A : Type ℓ} where
  unfoldable pub tick : Bytes → Pace A → ℕ × List A → Pace A
  unfolding queue_steps
  tick mode p (due, conns) =
      let queued = queue_steps mode conns (due - p.steps) p.next in
      record { steps = p.steps + (due - p.steps); next = queued.1; jobs = p.jobs ++ queued.0 }

  unfoldable pub run_ticks : Bytes → List (ℕ × List A) → Pace A
  unfolding tick
  run_ticks mode ticks = foldl (tick mode) (record { steps = 0; next = 0; jobs = [] }) ticks

  -- `accepted` is how many messages the workers take before the time of the test is over.
  unfoldable pub run_stress :
      StressTest → List (ℕ × List A) → (accepted : ℕ) → Writer → Go (Unit {0}) (List A × Writer)
  unfolding interval run_ticks set_total_requests
  run_stress test ticks accepted w =
      let sent = take accepted (run_ticks test.node_test_mode ticks).jobs in
      if int_le test.test_time_secs (pos 0) || int_le test.request_per_second (pos 0)
      then ok ([], w)
      else do
        every ← interval test.request_per_second
        ok (sent, written w (set_total_requests w test.id (length sent)))

  unfoldable pub both_elements :
      Option A → Option RefundCandidate → Go RefundError (A × RefundCandidate)
  both_elements (some conn) (some candidate) = ok (conn, candidate)
  both_elements (some conn) none = panic
  both_elements none o = panic

  -- `for ; sent < due; sent++`, so many times.
  unfoldable pub send_due :
      List A → List RefundCandidate → ℕ → Sending A → Go RefundError (Sending A)
  unfolding both_elements
  send_due conns candidates zero r = ok r
  send_due conns candidates (suc n) r = do
    send ← both_elements (get_elem? conns (r.sent % length conns)) (get_elem? candidates r.sent)
    send_due conns candidates n (record { sent = r.sent + 1; sends = r.sends ++ (send ∷ []) })

  -- The loop ends when all are sent; `none` stands for a wait for a tick behind the given ones.
  unfoldable pub refund_ticks :
      List A → List RefundCandidate → List ℕ → Sending A → Go RefundError (Option (Sending A))
  unfolding send_due
  refund_ticks conns candidates [] r =
      if ltb r.sent (length candidates) then ok none else ok (some r)
  refund_ticks conns candidates (due ∷ ticks) r =
      if ltb r.sent (length candidates)
      then (do
        r' ← send_due conns candidates (min due (length candidates) - r.sent) r
        refund_ticks conns candidates ticks r')
      else ok (some r)

  unfoldable pub finish_refund :
      StressTest → Writer → Option (Sending A) → Option (List (A × RefundCandidate) × Writer)
  unfolding set_total_requests
  finish_refund test w none = none
  finish_refund test w (some r) = some (r.sends, written w (set_total_requests w test.id r.sent))

  unfoldable pub run_refund :
      StressTest
      → Go ScanError (List RefundCandidate)
      → List A
      → List ℕ
      → Writer
      → Go RefundError (Option (List (A × RefundCandidate) × Writer))
  unfolding interval refund_ticks finish_refund
  run_refund test (err e) conns ticks w = err not_loaded
  run_refund test panic conns ticks w = panic
  run_refund test (ok candidates) [] ticks w = err no_clients
  run_refund test (ok candidates) (conn ∷ conns) ticks w = do
    every ← interval test.request_per_second
    r ← refund_ticks (conn ∷ conns) candidates ticks (record { sent = 0; sends = [] })
    ok (finish_refund test w r)
