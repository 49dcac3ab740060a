-- ===== src/Database/Batches/Overlap.antt =====
-- `Close` of database/batch_writer.go while calls of `enqueue` are between their two `select`s: such a call can
-- make its offer before each round of the flush, and after the last one.
use longclaw.Base.{
  ◌≡◌, ◌∙◌, refl, sym, ap, arith, Bool, true, false, not, ◌&&◌, ◌||◌, Option, none, some, List, [],
  ◌∷◌, ◌++◌, append_assoc, append-nil, length, ltb, if◌then◌else◌, All, Go, ok, err, panic, map,
}
use longclaw.Database.{Writer, WriteOp, DbError, db_closed}
use longclaw.Database.Batches.{Running, run_round, flush}
use longclaw.Database.Batches.Flush.{concat, accepted, Fits, run_queue-Progress, flush-Flushed}
use longclaw.Database.Batches.Closing.{write_queue_size, passes, offer}

-- A call at its second `select`; `takes_write` is Go's choice if both cases are ready.
pub record Offer : Type 0 where
  pub takes_write : Bool
  pub op : WriteOp

-- What happens until the last look at the queue: rounds that find writes, and offers. A round on an empty queue
-- would be that last look, and does nothing here.
pub data Moment : Type 0 where
  rounds : Moment
  offers : Offer → Moment

abbrev pub answered : WriteOp → Running → Option (Go DbError Writer) → Running
answered op r none = r
answered op r (some (ok w)) = record r { writer = w }
answered op r (some (err e)) = r
answered op r (some panic) = r

-- The write, if its call reports success.
abbrev pub reported : WriteOp → Option (Go DbError Writer) → List WriteOp
reported op none = []
reported op (some (ok w)) = op ∷ []
reported op (some (err e)) = []
reported op (some panic) = []

-- The writer behind some moments, with the writes whose calls have reported success.
unfoldable pub overlap : List Moment → Running → Running × List WriteOp
unfolding run_round offer
overlap [] r = (r, [])
overlap (rounds ∷ moments) r = overlap moments (run_round r)
overlap (offers call ∷ moments) r =
    let answer = offer call.takes_write r.writer call.op in
    let (after, successes) = overlap moments (answered call.op r answer) in
    (after, reported call.op answer ++ successes)

-- `Close` with offers until the flush finds the queue empty for the last time, and late ones after that.
unfoldable pub close_during :
    List Moment → (late : List Offer) → Running → Running × List WriteOp × List WriteOp
unfolding overlap flush
close_during moments late r =
    let (closing, successes) =
      overlap moments (record r { writer = record r.writer { done = true } }) in
    let (after, late_successes) =
      overlap (map offers late) (flush (length closing.writer.writes) closing) in
    (after, successes, late_successes)

answered-accepted :
    (op : WriteOp) (r : Running) (takes_write : Bool)
    → let answer = offer takes_write r.writer op in
      ((answered op r answer).committed ≡ r.committed)
      × ((answered op r answer).writer.writes ≡ r.writer.writes ++ reported op answer)
      × ((answered op r answer).writer.done ≡ r.writer.done)
unfolding offer
answered-accepted op r takes_write =
    by_tests (ltb (length r.writer.writes) write_queue_size && (not r.writer.done || takes_write))
      r.writer.done
  where
    by_tests :
        (taken shut : Bool)
        → let answer : Option (Go DbError Writer) =
            if taken
            then some (ok (record r.writer { writes = r.writer.writes ++ (op ∷ []) }))
            else if shut
            then some (err db_closed)
            else none in
          ((answered op r answer).committed ≡ r.committed)
          × ((answered op r answer).writer.writes ≡ r.writer.writes ++ reported op answer)
          × ((answered op r answer).writer.done ≡ r.writer.done)
    by_tests true shut = (refl, refl, refl)
    by_tests false true = (refl, sym (append-nil r.writer.writes), refl)
    by_tests false false = (refl, sym (append-nil r.writer.writes), refl)

-- Nothing is lost but what was reported, and nothing is gained.
record Kept (r after : Running) (successes : List WriteOp) : Type 0 where
  same : accepted after ≡ accepted r ++ successes
  small : All Fits after.committed
  done : after.writer.done ≡ r.writer.done

overlap-Kept :
    (moments : List Moment) (r : Running)
    → All Fits r.committed
    → Kept r (overlap moments r).0 (overlap moments r).1
unfolding overlap run_round
overlap-Kept [] r small = record {
  same = sym (append-nil (accepted r));
  small = small;
  done = refl;
}
overlap-Kept (rounds ∷ moments) r small =
    let step = run_queue-Progress r.writer.writes r refl small in
    let rest = overlap-Kept moments (run_round r) step.small in
    record {
      same = rest.same ∙ ap (λ ops. ops ++ (overlap moments (run_round r)).1) step.same;
      small = rest.small;
      done = rest.done ∙ step.open_or_not;
    }
overlap-Kept (offers call ∷ moments) r small =
    let answer = offer call.takes_write r.writer call.op in
    let next = answered call.op r answer in
    let (committed, writes, done) = answered-accepted call.op r call.takes_write in
    let rest = overlap-Kept moments next (rw committed small) in
    let now : accepted next ≡ accepted r ++ reported call.op answer =
      ap (λ bs. concat bs ++ next.writer.writes) committed
      ∙ ap (λ ops. concat r.committed ++ ops) writes
      ∙ sym (append_assoc (concat r.committed) r.writer.writes (reported call.op answer)) in
    record {
      same =
          rest.same
          ∙ ap (λ ops. ops ++ (overlap moments next).1) now
          ∙ append_assoc (accepted r) (reported call.op answer) (overlap moments next).1;
      small = rest.small;
      done = rest.done ∙ done;
    }

-- Late offers only queue.
late-committed :
    (late : List Offer) (r : Running)
    → ((overlap (map offers late) r).0.committed ≡ r.committed)
      × ((overlap (map offers late) r).0.writer.writes
          ≡ r.writer.writes ++ (overlap (map offers late) r).1)
unfolding overlap
late-committed [] r = (refl, sym (append-nil r.writer.writes))
late-committed (call ∷ late) r =
    let answer = offer call.takes_write r.writer call.op in
    let next = answered call.op r answer in
    let (committed, writes, done) = answered-accepted call.op r call.takes_write in
    let (committed', writes') = late-committed late next in
    let successes = (overlap (map offers late) next).1 in
    (
      committed' ∙ committed,
      writes'
          ∙ ap (λ ops. ops ++ successes) writes
          ∙ append_assoc r.writer.writes (reported call.op answer) successes,
    )

-- Of an engine that refuses no batch, and with no committed batch of more than 2000 writes before: whatever
-- calls of `enqueue` overlap `Close` between their two tests, when it has returned, the writes committed are
-- those queued before, then those whose overlapping calls reported success until the flush last found the
-- queue empty, in the order of these tests, in batches of at most 2000. A write whose call reports success
-- after that stays in the queue for good; these writes are all that the queue holds. Each call that
-- begins afterwards fails its first test.
pub close_during-accounts :
    (moments : List Moment) (late : List Offer) (r : Running)
    → All Fits r.committed
    → let (after, successes, lost) = close_during moments late r in
      (concat after.committed ≡ accepted r ++ successes)
      × (after.writer.writes ≡ lost)
      × All Fits after.committed
      × (passes after.writer ≡ false)
unfolding close_during passes
close_during-accounts moments late r small =
    let shut : Running = record r { writer = record r.writer { done = true } } in
    let closing = (overlap moments shut).0 in
    let kept = overlap-Kept moments shut small in
    let n = length closing.writer.writes in
    let flushed = flush-Flushed n closing (omega arith) kept.small in
    let after = flush n closing in
    let (committed, writes) = late-committed late after in
    let held = overlap-Kept (map offers late) after flushed.small in
    (
      ap concat committed
          ∙ sym (append-nil (concat after.committed))
          ∙ ap (λ ops. concat after.committed ++ ops) (sym flushed.empty)
          ∙ flushed.same
          ∙ kept.same,
      writes ∙ ap (λ ops. ops ++ (overlap (map offers late) after).1) flushed.empty,
      held.small,
      rw (held.done ∙ flushed.open_or_not ∙ kept.done) refl,
    )
