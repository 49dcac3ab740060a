-- ===== src/Network/Targets.antt =====
-- `nodeTargets` of network/server/iso_server.go: the connections that get one step of a stress test, and
-- the steps that `RunStress` makes of it.
pub mod Rotation
use longclaw.Base.{
  ℕ, zero, suc, ◌+◌, ◌%◌, Bool, not, ◌||◌, List, [], ◌∷◌, ◌++◌, Bytes, codes, bytes_eq, length,
  take, drop, ◌==◌, if◌then◌else◌,
}

abbrev pub node_test_mode_round_robin : Bytes
node_test_mode_round_robin = codes "round_robin"

-- `conns[i : i+1]` with `i` below the length. The result has the changed `next`.
unfoldable pub node_targets {ℓ} : {A : Type ℓ} → Bytes → List A → ℕ → List A × ℕ
node_targets mode conns next =
    if not (bytes_eq mode node_test_mode_round_robin) || (length conns == 0)
    then (conns, next)
    else (take 1 (drop (next % length conns) conns), next + 1)

-- The connections of `due` steps in a row, in the order in which they are queued.
unfoldable pub queue_steps {ℓ} : {A : Type ℓ} → Bytes → List A → (due : ℕ) → ℕ → List A × ℕ
unfolding node_targets
queue_steps mode conns zero next = ([], next)
queue_steps mode conns (suc due) next =
    let step = node_targets mode conns next in
    let rest = queue_steps mode conns due (step.1) in (step.0 ++ rest.0, rest.1)
