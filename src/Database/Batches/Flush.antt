-- ===== src/Database/Batches/Flush.antt =====
-- Nothing that was queued is lost or reordered.
use longclaw.Base.{
  err, ℕ, zero, suc, ◌-◌, ◌≤◌, ◌≡◌, ◌∙◌, refl, sym, ap, arith, true, List, [], ◌∷◌, ◌++◌,
  append_assoc, append-nil, length, length-drop, length-take, take, drop, take-append-drop, All,
  All-append,
}
use longclaw.Database.{WriteOp, db_closed, enqueue}
use longclaw.Database.Queue.{enqueue-closed}
use longclaw.Database.Batches.{
  Running, max_batch_size, fill_batch, commit, run_queue, run_round, flush, close_writer,
}

-- All writes of some batches, in order.
abbrev pub concat : List (List WriteOp) → List WriteOp
concat [] = []
concat (b ∷ bs) = b ++ concat bs

concat-append :
    (bs : List (List WriteOp)) (b : List WriteOp) → concat (bs ++ (b ∷ [])) ≡ concat bs ++ b
concat-append [] b = append-nil b
concat-append (c ∷ bs) b =
    ap (λ t. c ++ t) (concat-append bs b) ∙ sym (append_assoc c (concat bs) b)

-- What has been committed, and what is queued behind it.
abbrev pub accepted : Running → List WriteOp
accepted r = concat r.committed ++ r.writer.writes

abbrev pub Fits : List WriteOp → Type 0
Fits batch = length batch ≤ max_batch_size

-- A round keeps the accepted writes in order, shortens the queue, and commits no large batch.
pub record Progress (r after : Running) : Type 0 where
  pub same : accepted after ≡ accepted r
  pub shorter : length after.writer.writes ≤ length r.writer.writes - 1
  pub small : All Fits after.committed
  pub open_or_not : after.writer.done ≡ r.writer.done

pub run_queue-Progress :
    (qs : List WriteOp) (r : Running)
    → r.writer.writes ≡ qs
    → All Fits r.committed
    → Progress r (run_queue qs r)
unfolding run_queue commit fill_batch
run_queue-Progress [] r e h = record {
  same = refl;
  shorter = rw e (omega arith);
  small = h;
  open_or_not = refl;
}
run_queue-Progress (op ∷ rest) r e h = record {
  same =
      ap (λ t. t ++ drop max_batch_size (op ∷ rest))
        (concat-append r.committed (take max_batch_size (op ∷ rest)))
      ∙ append_assoc (concat r.committed) (take max_batch_size (op ∷ rest))
          (drop max_batch_size (op ∷ rest))
      ∙ ap (λ t. concat r.committed ++ t) (take-append-drop max_batch_size (op ∷ rest) ∙ sym e);
  shorter = rw e (omega (arith, length-drop max_batch_size (op ∷ rest)));
  small =
      All-append Fits r.committed (take max_batch_size (op ∷ rest) ∷ []) h
        (omega (arith, length-take max_batch_size (op ∷ rest)), tt);
  open_or_not = refl;
}

no_writes : (qs : List WriteOp) → length qs ≤ 0 → qs ≡ []
no_writes [] h = refl
no_writes (op ∷ rest) h = absurd (omega arith)

pub record Flushed (r after : Running) : Type 0 where
  pub same : accepted after ≡ accepted r
  pub empty : after.writer.writes ≡ []
  pub small : All Fits after.committed
  pub open_or_not : after.writer.done ≡ r.writer.done

pub flush-Flushed :
    (rounds : ℕ) (r : Running)
    → length r.writer.writes ≤ rounds
    → All Fits r.committed
    → Flushed r (flush rounds r)
unfolding flush run_round
flush-Flushed zero r h small = record {
  same = refl;
  empty = no_writes r.writer.writes h;
  small = small;
  open_or_not = refl;
}
flush-Flushed (suc rounds) r h small =
    let step = run_queue-Progress r.writer.writes r refl small in
    let rest =
      flush-Flushed rounds (run_queue r.writer.writes r) (omega (arith, step.shorter, h))
        step.small in
    record {
      same = rest.same ∙ step.same;
      empty = rest.empty;
      small = rest.small;
      open_or_not = rest.open_or_not ∙ step.open_or_not;
    }

-- When the writer is closed and no call of `enqueue` is at its second test, all writes that are queued are
-- committed, in order, by an engine that refuses none, nothing is left in the queue, a call that begins
-- afterwards is refused, and no batch is larger than 2000, if none was before.
pub close_writer-flushes :
    (r : Running)
    → All Fits r.committed
    → let after = close_writer r in
      (concat after.committed ≡ concat r.committed ++ r.writer.writes)
      × (after.writer.writes ≡ [])
      × All Fits after.committed
      × ((op : WriteOp) → enqueue after.writer op ≡ err db_closed)
unfolding close_writer
close_writer-flushes r small =
    let closing : Running = record r { writer = record r.writer { done = true } } in
    let done = flush-Flushed (length r.writer.writes) closing (omega arith) small in
    let after = flush (length r.writer.writes) closing in
    (
      sym (append-nil (concat after.committed))
          ∙ ap (λ t. concat after.committed ++ t) (sym done.empty)
          ∙ done.same,
      done.empty,
      done.small,
      λ op. enqueue-closed after.writer op done.open_or_not,
    )
