-- ===== src/Runner/Steps.antt =====
-- The interleavings of the requests with the runner's loop.
use longclaw.Base.{
  ℕ, suc, ◌+◌, ◌≤◌, ◌<◌, Bool, true, false, Option, none, some, List, [], ◌∷◌, ◌++◌, length, ◌≡◌,
  refl, ◌⊎◌, inl, inr, ◌∙◌, ap, Bool-cases, arith,
}
use longclaw.Database.StressTests.{StressTest}
use longclaw.Runner.{
  Runner, new_runner, reserve, start_insert, insert_failed, send_test, receive_test, finish_test,
}

-- What goes on by itself, once a request has the reservation.
pub data Progress : Runner → Runner → Type 0 where
  fails : (r : Runner) → 0 < r.inserting → Progress r (insert_failed r)
  sends : (r : Runner) (test : StressTest) → 0 < r.inserting → Progress r (send_test test r)
  receives :
      (r : Runner) (test : StressTest) (rest : List StressTest)
      → r.sending ≡ test ∷ rest
      → r.running ≡ none
      → Progress r (receive_test test rest r)
  finishes : (r : Runner) (test : StressTest) → r.running ≡ some test → Progress r (finish_test r)

pub data Reachable : Runner → Type 0 where
  start : Reachable new_runner
  request : (r : Runner) → Reachable r → Reachable (start_insert (reserve r))
  step : (r r' : Runner) → Reachable r → Progress r r' → Reachable r'

abbrev pub running_count : Option StressTest → ℕ
running_count none = 0
running_count (some test) = 1

-- The tests under way.
abbrev pub held : Runner → ℕ
held r = r.inserting + (length r.sending + running_count r.running)

abbrev pub bit : Bool → ℕ
bit true = 1
bit false = 0

length-snoc :
    (tests : List StressTest) (test : StressTest)
    → length (tests ++ (test ∷ [])) ≡ suc (length tests)
length-snoc [] test = refl
length-snoc (other ∷ tests) test = omega (arith, length-snoc tests test)

-- How many steps the tests under way still take at most.
abbrev pub weight : Runner → ℕ
weight r =
    r.inserting
    + (r.inserting
        + (r.inserting + (length r.sending + (length r.sending + running_count r.running))))

Progress-weight : (r r' : Runner) → Progress r r' → suc (weight r') ≤ weight r
unfolding insert_failed send_test receive_test finish_test
Progress-weight r r' (fails q h) = omega (arith, h)
Progress-weight r r' (sends q test h) = omega (arith, h, length-snoc r.sending test)
Progress-weight r r' (receives q test rest h i) =
    omega (arith, ap {B = ℕ} length h, ap {B = ℕ} running_count i)
Progress-weight r r' (finishes q test h) = omega (arith, ap {B = ℕ} running_count h)

bit_le : (b : Bool) → bit b ≤ 1
bit_le true = omega arith
bit_le false = omega arith

request-held :
    (r : Runner)
    → held r ≡ bit r.busy
    → held (start_insert (reserve r)) ≡ bit (start_insert (reserve r)).busy
unfolding start_insert reserve
request-held r h = elim (Bool-cases r.busy) [
  | inl e ↦ rw e (h ∙ ap bit e)
  | inr e ↦ rw e (omega (arith, h, ap bit e))
]

Progress-held : (r r' : Runner) → held r ≡ bit r.busy → Progress r r' → held r' ≡ bit r'.busy
unfolding insert_failed send_test receive_test finish_test
Progress-held r r' e (fails q h) = omega (arith, e, h, bit_le r.busy)
Progress-held r r' e (sends q test h) = omega (arith, e, h, length-snoc r.sending test)
Progress-held r r' e (receives q test rest h i) =
    omega (arith, e, ap {B = ℕ} length h, ap {B = ℕ} running_count i)
Progress-held r r' e (finishes q test h) =
    omega (arith, e, ap {B = ℕ} running_count h, bit_le r.busy)

-- In every interleaving there is one test under way if the runner is reserved, else none.
pub Reachable-held : (r : Runner) → Reachable r → held r ≡ bit r.busy
unfolding new_runner
Reachable-held r start = refl
Reachable-held r (request q h) = request-held q (Reachable-held q h)
Reachable-held r (step q q' h p) = Progress-held q r (Reachable-held q h) p

-- So many of these steps in a row, with no new request between them.
pub data Run : ℕ → Runner → Runner → Type 0 where
  stay : (r : Runner) → Run 0 r r
  go : (n : ℕ) (r r' r'' : Runner) → Progress r r' → Run n r' r'' → Run (suc n) r r''

Run-weight : (n : ℕ) (r r' : Runner) → Run n r r' → n + weight r' ≤ weight r
Run-weight n r r' (stay q) = omega arith
Run-weight n r r'' (go m q r' q'' p run) =
    omega (arith, Progress-weight q r' p, Run-weight m r' r'' run)

Run-Reachable : (n : ℕ) (r r' : Runner) → Reachable r → Run n r r' → Reachable r'
Run-Reachable n r r' h (stay q) = h
Run-Reachable n r r'' h (go m q r' q'' p run) = Run-Reachable m r' r'' (step r r' h p) run

abbrev pub CanGoOn : Runner → Type 0
CanGoOn r = (r' : Runner) × Progress r r'

-- A reserved runner is not stuck.
busy-CanGoOn : (r : Runner) → StressTest → held r ≡ 1 → CanGoOn r
busy-CanGoOn r test h = by_running r.running r.sending refl refl
  where
    by_running :
        (o : Option StressTest) (tests : List StressTest)
        → r.running ≡ o
        → r.sending ≡ tests
        → CanGoOn r
    by_running (some t) tests e e' = (finish_test r, finishes r t e)
    by_running none (t ∷ rest) e e' = (receive_test t rest r, receives r t rest e' e)
    by_running none [] e e' = (
      send_test test r,
      sends r test (omega (arith, h, ap {B = ℕ} running_count e, ap {B = ℕ} length e')),
    )

-- From whatever the interleaving of requests, inserts and the runner's loop has led to, the tests
-- under way end: after any number of steps of theirs the runner is either free for the next request or
-- another of these steps can be made, and there are never more than three of them.
pub Reachable-frees :
    (r r' : Runner) (n : ℕ)
    → StressTest
    → Reachable r
    → Run n r r'
    → (n ≤ 3) × ((r'.busy ≡ false) ⊎ CanGoOn r')
Reachable-frees r r' n test h run = (
  omega (arith, Run-weight n r r' run, Reachable-held r h, bit_le r.busy),
  elim (Bool-cases r'.busy) [
    | inl e ↦ inr (busy-CanGoOn r' test (Reachable-held r' (Run-Reachable n r r' h run) ∙ ap bit e))
    | inr e ↦ inl e
  ],
)
