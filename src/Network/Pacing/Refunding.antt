-- ===== src/Network/Pacing/Refunding.antt =====
-- The loop of `RunRefund` (network/server/refund.go) sends every refund once.
use native.Mathlib.Nat.{mod-lt}
use longclaw.Base.{
  ℕ, zero, suc, ◌+◌, ◌-◌, ◌%◌, ◌/◌, ◌≤◌, ◌<◌, min, false, Option, none, some, List, [], ◌∷◌, ◌++◌,
  map, map-append, take, length, get_elem?, get_elem?-some, ltb, if◌then◌else◌, ok, ℤ, pos, negsuc,
  ◌≡◌, refl, sym, ap, ◌∙◌, inl, inr, Bool-cases, arith,
}
use longclaw.Base.Order.{int_le}
use longclaw.Database.{Writer, set_total_requests}
use longclaw.Database.StressTests.{StressTest}
use longclaw.Database.Refunds.{RefundCandidate}
use longclaw.Network.Pacing.{
  interval, written, RefundError, Sending, send_due, refund_ticks, finish_refund, run_refund,
}

-- 0, 1, ... below n.
abbrev pub upto : ℕ → List ℕ
upto zero = []
upto (suc n) = upto n ++ (n ∷ [])

take-suc {ℓ} :
    {A : Type ℓ} (xs : List A) (i : ℕ) (x : A)
    → get_elem? xs i ≡ some x
    → take (suc i) xs ≡ take i xs ++ (x ∷ [])
take-suc {A = A} [] i x e = absurd (no e)
  where
    no : ◌≡◌ {A = Option A} none (some x) → ⊥
    no h = cc
take-suc (y ∷ ys) zero x e = ap (λ z. z ∷ []) (same e)
  where
    same : some y ≡ some x → y ≡ x
    same h = cc
take-suc (y ∷ ys) (suc i) x e = ap (λ l. y ∷ l) (take-suc ys i x e)

take-whole {ℓ} : {A : Type ℓ} (xs : List A) → take (length xs) xs ≡ xs
take-whole [] = refl
take-whole (x ∷ xs) = ap (λ l. x ∷ l) (take-whole xs)

not_below : {m n : ℕ} → m ≡ n → ltb m n ≡ false
not_below {m} {n} h = ground (arith, h)

module _ {A : Type 0} (conns : List A) (candidates : List RefundCandidate) where
  -- The first `n` refunds, each over the connection whose turn it is.
  abbrev pub IsDealt : ℕ → List (A × RefundCandidate) → Type 0
  IsDealt n sends =
      (map (λ send. send.1) sends ≡ take n candidates)
      × (map (λ send. some (send.0)) sends ≡ map (λ i. get_elem? conns (i % length conns)) (upto n))

  IsDealt-suc :
      (n : ℕ) (sends : List (A × RefundCandidate)) (conn : A) (candidate : RefundCandidate)
      → get_elem? conns (n % length conns) ≡ some conn
      → get_elem? candidates n ≡ some candidate
      → IsDealt n sends
      → IsDealt (n + 1) (sends ++ ((conn, candidate) ∷ []))
  IsDealt-suc n sends conn candidate e e' (i, j) =
      let s : n + 1 ≡ suc n = omega arith in
      rw s (
        map-append (λ send. send.1) sends ((conn, candidate) ∷ [])
            ∙ ap (λ l. l ++ (candidate ∷ [])) i
            ∙ sym (take-suc candidates n candidate e'),
        map-append (λ send. some (send.0)) sends ((conn, candidate) ∷ [])
            ∙ ap (λ l. l ++ (some conn ∷ [])) j
            ∙ ap (λ o. map (λ i'. get_elem? conns (i' % length conns)) (upto n) ++ (o ∷ [])) (sym e)
            ∙ sym (map-append (λ i'. get_elem? conns (i' % length conns)) (upto n) (n ∷ [])),
      )

  module _ (some_conn : 0 < length conns) where
    send_due-Inv :
        (n : ℕ) (r : Sending A)
        → r.sent + n ≤ length candidates
        → IsDealt r.sent r.sends
        → (r' : Sending A) × (send_due conns candidates n r ≡ ok r')
          × (r'.sent ≡ r.sent + n)
          × IsDealt r'.sent r'.sends
    unfolding send_due
    send_due-Inv zero r h i = (r, refl, omega arith, i)
    send_due-Inv (suc n) r h (i, j) =
        let (conn, e) = get_elem?-some conns (r.sent % length conns) (mod-lt r.sent some_conn) in
        let (candidate, e') = get_elem?-some candidates r.sent (omega (arith, h)) in
        let dealt : IsDealt (r.sent + 1) (r.sends ++ ((conn, candidate) ∷ [])) =
          IsDealt-suc r.sent r.sends conn candidate e e' (i, j) in
        let (r', f, g, k) =
          send_due-Inv n (record { sent = r.sent + 1; sends = r.sends ++ ((conn, candidate) ∷ []) })
            (omega (arith, h)) dealt in
        (r', rw (e, e') f, omega (arith, g), k)

    -- The loop ends when all are sent.
    refund_ticks-done :
        (ticks : List ℕ) (r : Sending A)
        → r.sent ≡ length candidates
        → refund_ticks conns candidates ticks r ≡ ok (some r)
    unfolding refund_ticks
    refund_ticks-done [] r h = rw (not_below h) refl
    refund_ticks-done (due ∷ ticks) r h = rw (not_below h) refl

    refund_ticks-IsDealt :
        (early late : List ℕ) (due : ℕ) (r : Sending A)
        → length candidates ≤ due
        → r.sent ≤ length candidates
        → IsDealt r.sent r.sends
        → (r' : Sending A) × (refund_ticks conns candidates (early ++ (due ∷ late)) r
            ≡ ok (some r'))
          × (r'.sent ≡ length candidates)
          × IsDealt r'.sent r'.sends
    unfolding refund_ticks
    refund_ticks-IsDealt [] late due r h below dealt =
        elim (Bool-cases (ltb r.sent (length candidates))) [
          | inl e ↦
              let (r', f, g, k) =
                send_due-Inv (min due (length candidates) - r.sent) r (omega (arith, below))
                  dealt in
              let all : r'.sent ≡ length candidates = omega (arith, g, below, h) in
              (r', rw (e, f) (refund_ticks-done late r' all), all, k)
          | inr e ↦ (r, rw e refl, ground (arith, below), dealt)
        ]
    refund_ticks-IsDealt (tick ∷ early) late due r h below dealt =
        elim (Bool-cases (ltb r.sent (length candidates))) [
          | inl e ↦
              let (r', f, g, k) =
                send_due-Inv (min tick (length candidates) - r.sent) r (omega (arith, below))
                  dealt in
              let (r'', f', g', k') =
                refund_ticks-IsDealt early late due r' h (omega (arith, g, below)) k in
              (r'', rw (e, f) f', g', k')
          | inr e ↦ (r, rw e refl, ground (arith, below), dealt)
        ]

interval_ok :
    (rate : ℤ)
    → int_le rate (pos 0) ≡ false
    → (every : ℕ) × (interval {E = RefundError} rate ≡ ok every)
unfolding interval
interval_ok (pos zero) h = cc
interval_ok (pos (suc n)) h =
    (if ltb (1000000000 / suc n) 1000000 then 1000000 else 1000000000 / suc n, refl)
interval_ok (negsuc n) h = (1000000, refl)

-- `RunRefund` with the sales of the source test, at least one client and a rate above 0, in which some
-- tick comes with as many refunds due as there are sales: it ends with every sale sent, once and in
-- order, the i-th over the connection at i modulo their number, and it queues their number as the
-- test's total of requests.
pub run_refund-IsDealt :
    {A : Type 0} (test : StressTest) (candidates : List RefundCandidate) (conn : A) (conns : List A)
    (early late : List ℕ) (due : ℕ) (w : Writer)
    → int_le test.request_per_second (pos 0) ≡ false
    → length candidates ≤ due
    → (sends : List (A × RefundCandidate)) × (run_refund test
          (ok candidates)
          (conn ∷ conns)
          (early ++ (due ∷ late))
          w
        ≡ ok (some (sends, written w (set_total_requests w test.id (length candidates)))))
      × (map (λ send. send.1) sends ≡ candidates)
      × (map (λ send. some (send.0)) sends
          ≡ map
              (λ i. get_elem? (conn ∷ conns) (i % length (conn ∷ conns)))
              (upto (length candidates)))
unfolding run_refund finish_refund
run_refund-IsDealt {A} test candidates conn conns early late due w rate h =
    let (every, f) = interval_ok test.request_per_second rate in
    let (r, e, g, (i, j)) =
      refund_ticks-IsDealt (conn ∷ conns) candidates (omega arith) early late due
        (record { sent = 0; sends = [] }) h (omega arith) (refl, refl) in
    let i' : map (λ send. send.1) r.sends ≡ candidates =
      i ∙ ap (λ n. take n candidates) g ∙ take-whole candidates in
    (
      r.sends,
      rw (f, e, g) refl,
      i',
      j ∙ ap (λ n. map (λ i. get_elem? (conn ∷ conns) (i % length (conn ∷ conns))) (upto n)) g,
    )
