-- ===== src/Database/Batches/Errors.antt =====
-- `commit` of database/batch_writer.go with an engine that refuses a transaction or statements of it. All errors are
-- only logged.
use longclaw.Base.{
  ℕ, suc, ◌≡◌, refl, ap, Bool, true, false, ◌&&◌, List, [], ◌∷◌, drop, if◌then◌else◌,
}
use longclaw.Database.{WriteOp}
use longclaw.Database.Batches.{Running, max_batch_size, fill_batch, commit, run_queue}

-- What the engine does with a batch: whether `Begin` succeeds, which statements, by their place, can be prepared
-- and executed, and whether `Commit` succeeds.
pub record Engine : Type 0 where
  pub begins : Bool
  pub prepares : ℕ → Bool
  pub executes : ℕ → Bool
  pub commits : Bool

-- A statement that is refused is left out, and the next is tried.
unfoldable pub taken : Engine → ℕ → List WriteOp → List WriteOp
taken engine place [] = []
taken engine place (op ∷ ops) =
    let rest = taken engine (suc place) ops in
    if engine.prepares place && engine.executes place then op ∷ rest else rest

-- The tables change only if the transaction ends.
unfoldable pub commit_with : Engine → List WriteOp → Running → Running
unfolding commit taken
commit_with engine batch r =
    if engine.begins && engine.commits then commit (taken engine 0 batch) r else r

-- The round of the loop with such an engine.
unfoldable pub run_queue_with : Engine → List WriteOp → Running → Running
unfolding fill_batch commit_with
run_queue_with engine [] r = r
run_queue_with engine (op ∷ rest) r =
    commit_with engine (fill_batch (op ∷ rest))
      (record r { writer = record r.writer { writes = drop max_batch_size (op ∷ rest) } })

-- An engine that accepts everything.
abbrev pub willing : Engine
willing = record {
  begins = true;
  prepares = λ place. true;
  executes = λ place. true;
  commits = true;
}

taken-willing : (place : ℕ) (ops : List WriteOp) → taken willing place ops ≡ ops
unfolding taken
taken-willing place [] = refl
taken-willing place (op ∷ ops) = ap (λ t. op ∷ t) (taken-willing (suc place) ops)

run_queue_with-willing :
    (qs : List WriteOp) (r : Running) → run_queue_with willing qs r ≡ run_queue qs r
unfolding run_queue_with run_queue commit_with
run_queue_with-willing [] r = refl
run_queue_with-willing (op ∷ rest) r =
    ap
      (λ batch.
        commit batch
          (record r { writer = record r.writer { writes = drop max_batch_size (op ∷ rest) } }))
      (taken-willing 0 (fill_batch (op ∷ rest)))

-- A batch whose transaction does not begin is lost: it leaves the queue, and the tables stay as they are.
run_queue_with-refused :
    (engine : Engine) (qs : List WriteOp) (r : Running)
    → engine.begins ≡ false
    → r.writer.writes ≡ qs
    → (run_queue_with engine qs r).tables ≡ r.tables
unfolding run_queue_with commit_with
run_queue_with-refused engine [] r refused e = refl
run_queue_with-refused engine (op ∷ rest) r refused e = rw (commit_with, refused) refl
