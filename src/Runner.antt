-- ===== src/Runner.antt =====
-- runner/stresstest_runner.go: one stress test at a time is reserved, handed over on a channel and run.
pub mod Steps
use longclaw.Base.{
  ℕ, zero, suc, ◌+◌, ◌-◌, Bool, true, false, Option, none, some, List, [], ◌∷◌, ◌++◌, if◌then◌else◌,
}
use longclaw.Database.StressTests.{StressTest}

-- The runner with what its callers do. `inserting` counts the requests that hold the reservation and
-- have not yet inserted their test; `sending` are the tests of those who wait on the channel, which has
-- no buffer; `running` is the test that `HandleChannelEvents` has received.
pub record Runner : Type 0 where
  pub busy : Bool
  pub inserting : ℕ
  pub sending : List StressTest
  pub running : Option StressTest

-- As `main` makes it.
unfoldable pub new_runner : Runner
new_runner = record { busy = false; inserting = 0; sending = []; running = none }

-- `CompareAndSwap(false, true)`
unfoldable pub reserve : Runner → Runner × Bool
reserve r = if r.busy then (r, false) else (record r { busy = true }, true)

unfoldable pub release : Runner → Runner
release r = record r { busy = false }

-- The request of `CreateTest` that has reserved the runner goes on to its INSERT.
unfoldable pub start_insert : Runner × Bool → Runner
start_insert (r, reserved) = if reserved then record r { inserting = r.inserting + 1 } else r

-- The engine refuses the row.
unfoldable pub insert_failed : Runner → Runner
unfolding release
insert_failed r = release (record r { inserting = r.inserting - 1 })

-- The test is sent on the channel.
unfoldable pub send_test : StressTest → Runner → Runner
send_test test r = record r { inserting = r.inserting - 1; sending = r.sending ++ (test ∷ []) }

-- The loop of `HandleChannelEvents` receives a test ...
unfoldable pub receive_test : StressTest → List StressTest → Runner → Runner
receive_test test rest r = record r { sending = rest; running = some test }

-- ... and frees the runner when `RunStress` or `RunRefund` has returned.
unfoldable pub finish_test : Runner → Runner
unfolding release
finish_test r = release (record r { running = none })
