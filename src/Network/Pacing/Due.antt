-- ===== src/Network/Pacing/Due.antt =====
-- Ticks that come late or not at all in `RunStress` (network/server/iso_server.go).
use longclaw.Base.{
  ℕ, zero, suc, ◌+◌, ◌-◌, List, [], ◌∷◌, ◌++◌, append_assoc, foldl, map, Bytes, leb, if◌then◌else◌,
  ◌≡◌, refl, sym, ap, ◌∙◌, arith,
}
use longclaw.Network.Targets.{node_targets, queue_steps}
use longclaw.Network.Pacing.{Pace, tick, run_ticks}

-- The most steps that were due at a tick.
abbrev pub most : ℕ → List ℕ → ℕ
most n [] = n
most n (due ∷ dues) = most (if leb due n then n else due) dues

module _ {A : Type 0} (mode : Bytes) (conns : List A) where
  queue_steps-step :
      (m next : ℕ)
      → queue_steps mode conns (suc m) next ≡ (
          let step = node_targets mode conns next in
          let rest = queue_steps mode conns m (step.1) in (step.0 ++ rest.0, rest.1))
  unfolding queue_steps
  queue_steps-step m next = refl

  queue_steps-add_steps :
      (a b next : ℕ)
      → queue_steps mode conns (a + b) next ≡ (
          let front = queue_steps mode conns a next in
          let back = queue_steps mode conns b (front.1) in (front.0 ++ back.0, back.1))
  queue_steps-add_steps zero b next =
      let e : 0 + b ≡ b = omega arith in unfold queue_steps in rw e refl
  queue_steps-add_steps (suc a) b next =
      let e : suc a + b ≡ suc (a + b) = omega arith in
      let step = node_targets mode conns next in
      let front = queue_steps mode conns a (step.1) in
      let back = queue_steps mode conns b (front.1) in
      ap (λ n. queue_steps mode conns n next) e
      ∙ queue_steps-step (a + b) next
      ∙ rw
          (
            queue_steps-add_steps a b (step.1),
            queue_steps-step a next,
            append_assoc (step.0) (front.0) (back.0),
          )
          refl

  -- After so many steps.
  abbrev pub paced : ℕ → Pace A
  paced n = record {
    steps = n;
    next = (queue_steps mode conns n 0).1;
    jobs = (queue_steps mode conns n 0).0;
  }

  tick-paced : (n due : ℕ) → tick mode (paced n) (due, conns) ≡ paced (if leb due n then n else due)
  unfolding tick
  tick-paced n due =
      let e : n + (due - n) ≡ (if leb due n then n else due) = ground arith in
      ap {A = List A × ℕ} (λ q. record { steps = n + (due - n); next = q.1; jobs = q.0 })
        (sym (queue_steps-add_steps n (due - n) 0))
      ∙ ap paced e

  foldl-paced :
      (n : ℕ) (dues : List ℕ)
      → foldl (tick mode) (paced n) (map (λ due. (due, conns)) dues) ≡ paced (most n dues)
  foldl-paced n [] = refl
  foldl-paced n (due ∷ dues) =
      ap (λ p. foldl (tick mode) p (map (λ d. (d, conns)) dues)) (tick-paced n due)
      ∙ foldl-paced (if leb due n then n else due) dues

  -- While the connections stay the same, the messages that are queued, and the node whose turn is next,
  -- are those of as many steps as were due at the latest of the ticks: it does not matter which ticks
  -- before it came late or were dropped.
  pub run_ticks-most :
      (dues : List ℕ) → run_ticks mode (map (λ due. (due, conns)) dues) ≡ paced (most 0 dues)
  unfolding run_ticks
  run_ticks-most dues = (unfold queue_steps in refl) ∙ foldl-paced 0 dues
