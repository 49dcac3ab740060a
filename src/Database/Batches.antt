-- ===== src/Database/Batches.antt =====
-- database/batch_writer.go: `run` takes what is queued in batches and commits each of them; after `Close`
-- it flushes what is left.
pub mod Flush
pub mod Refinement
pub mod Closing
pub mod Overlap
pub mod Errors
use longclaw.Base.{
  ℕ, zero, suc, ◌-◌, Bool, true, List, [], ◌∷◌, ◌++◌, length, take, drop, if◌then◌else◌,
}
use longclaw.Database.{Writer, WriteOp}
use longclaw.Database.Tables.{Tables, apply_all}

abbrev pub max_batch_size : ℕ
max_batch_size = 2000

-- The writer, the batches that it has committed, the oldest first, and the tables.
pub record Running : Type 0 where
  pub writer : Writer
  pub committed : List (List WriteOp)
  pub tables : Tables

-- The first write is waited for; the others are taken while there are some, up to the batch's size.
unfoldable pub fill_batch : List WriteOp → List WriteOp
fill_batch queued = take max_batch_size queued

-- One transaction that the engine begins, executes and commits (Errors has one that refuses); a statement
-- that changes no row is only logged.
unfoldable pub commit : List WriteOp → Running → Running
commit batch r = record r {
  committed = r.committed ++ (batch ∷ []);
  tables = apply_all r.tables batch;
}

unfoldable pub run_queue : List WriteOp → Running → Running
run_queue [] r = r
run_queue (op ∷ rest) r =
    commit (fill_batch (op ∷ rest))
      (record r { writer = record r.writer { writes = drop max_batch_size (op ∷ rest) } })

-- One round of the loop, which does nothing on an empty queue.
unfoldable pub run_round : Running → Running
unfolding fill_batch commit run_queue
run_round r = run_queue r.writer.writes r

-- The rounds of the flush, as many as there are writes at most.
unfoldable pub flush : ℕ → Running → Running
unfolding run_round
flush zero r = r
flush (suc rounds) r = flush rounds (run_round r)

-- `Close`, with no call of `enqueue` at its second `select` (Overlap has those): what is queued is committed.
unfoldable pub close_writer : Running → Running
unfolding flush
close_writer r =
    flush (length r.writer.writes) (record r { writer = record r.writer { done = true } })
