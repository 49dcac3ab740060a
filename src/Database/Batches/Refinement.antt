-- ===== src/Database/Batches/Refinement.antt =====
-- The batch writer against a database that runs every statement at once.
use longclaw.Base.{
  ℕ, zero, suc, ◌≡◌, ◌∙◌, refl, sym, ap, true, false, List, [], ◌∷◌, foldl, foldl-append, length,
  take, drop, take-append-drop, All, Go, ok, err, panic,
}
use longclaw.Database.{Writer, WriteOp, DbError, enqueue}
use longclaw.Database.Tables.{Tables, apply_op, apply_all}
use longclaw.Database.Batches.{
  Running, max_batch_size, fill_batch, commit, run_queue, run_round, flush, close_writer,
}
use longclaw.Database.Batches.Flush.{Fits, run_queue-Progress, close_writer-flushes}
use longclaw.Database.Queue.{enqueue-running}

-- What a caller may do, and a round of the writer's goroutine in between.
pub data Call : Type 0 where
  write : WriteOp → Call
  round : Call

-- A write that is refused changes nothing.
abbrev pub queued : Running → Go DbError Writer → Running
queued r (ok w) = record r { writer = w }
queued r (err e) = r
queued r panic = r

unfoldable pub run_call : Running → Call → Running
run_call r (write op) = queued r (enqueue r.writer op)
run_call r round = run_round r

-- The abstract database has the tables alone; a round of the writer is nothing to it.
unfoldable pub spec_call : Tables → Call → Tables
spec_call t (write op) = apply_op t op
spec_call t round = t

abbrev pub run_calls : Running → List Call → Running
run_calls r calls = foldl run_call r calls

abbrev pub spec_calls : Tables → List Call → Tables
spec_calls t calls = foldl spec_call t calls

-- The tables when everything that is queued has been run.
unfoldable pub settled : Running → Tables
settled r = apply_all r.tables r.writer.writes

settled-run_queue :
    (qs : List WriteOp) (r : Running) → r.writer.writes ≡ qs → settled (run_queue qs r) ≡ settled r
unfolding settled run_queue commit fill_batch
settled-run_queue [] r e = refl
settled-run_queue (op ∷ rest) r e =
    sym (
      foldl-append apply_op r.tables (take max_batch_size (op ∷ rest))
        (drop max_batch_size (op ∷ rest)))
    ∙ ap (apply_all r.tables) (take-append-drop max_batch_size (op ∷ rest) ∙ sym e)

settled-run_round : (r : Running) → settled (run_round r) ≡ settled r
unfolding run_round
settled-run_round r = settled-run_queue r.writer.writes r refl

settled-flush : (rounds : ℕ) (r : Running) → settled (flush rounds r) ≡ settled r
unfolding flush
settled-flush zero r = refl
settled-flush (suc rounds) r = settled-flush rounds (run_round r) ∙ settled-run_round r

-- While the writer is open, a call does to the settled tables what it does to the abstract database.
record Simulates (r : Running) (t : Tables) : Type 0 where
  same : settled r ≡ t
  accepts : r.writer.done ≡ false
  small : All Fits r.committed

run_call-Simulates :
    (r : Running) (t : Tables) (c : Call) → Simulates r t → Simulates (run_call r c) (spec_call t c)
unfolding run_call spec_call run_round settled
run_call-Simulates r t (write op) p = rw (enqueue-running r.writer op p.accepts) (record {
  same = foldl-append apply_op r.tables r.writer.writes (op ∷ []) ∙ ap (λ u. apply_op u op) p.same;
  accepts = p.accepts;
  small = p.small;
})
run_call-Simulates r t round p =
    let step = run_queue-Progress r.writer.writes r refl p.small in
    record {
      same = settled-run_round r ∙ p.same;
      accepts = step.open_or_not ∙ p.accepts;
      small = step.small;
    }

run_calls-Simulates :
    (calls : List Call) (r : Running) (t : Tables)
    → Simulates r t
    → Simulates (run_calls r calls) (spec_calls t calls)
run_calls-Simulates [] r t p = p
run_calls-Simulates (c ∷ calls) r t p =
    run_calls-Simulates calls (run_call r c) (spec_call t c) (run_call-Simulates r t c p)

close_writer-settled : (r : Running) → All Fits r.committed → (close_writer r).tables ≡ settled r
unfolding close_writer settled
close_writer-settled r small =
    let after = close_writer r in
    let (_, empty, _, _) = close_writer-flushes r small in
    sym (ap (apply_all after.tables) empty)
    ∙ settled-flush (length r.writer.writes) (record r { writer = record r.writer { done = true } })

-- Whatever writes are queued and whenever the writer commits a batch, when the writer has been closed the
-- tables are those of a database that ran each write at once, in the order of the calls.
pub close_writer-refines :
    (r : Running) (calls : List Call)
    → r.writer.done ≡ false
    → All Fits r.committed
    → (close_writer (run_calls r calls)).tables ≡ spec_calls (settled r) calls
close_writer-refines r calls accepts small =
    let p =
      run_calls-Simulates calls r (settled r)
        (record { same = refl; accepts = accepts; small = small }) in
    close_writer-settled (run_calls r calls) p.small ∙ p.same
