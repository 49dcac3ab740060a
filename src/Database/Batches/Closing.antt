-- ===== src/Database/Batches/Closing.antt =====
-- `enqueue` of database/batch_writer.go while another goroutine calls `Close`: its two `select`s are steps.
use longclaw.Base.{
  ℕ, ◌<◌, ◌≡◌, ◌∙◌, refl, sym, Bool, true, false, not, ◌&&◌, ◌||◌, Option, none, some, [], ◌∷◌,
  ◌++◌, length, ltb, lt→ltb, if◌then◌else◌, All, Go, ok, err, Bool-cases, inl, inr,
}
use longclaw.Database.{Writer, WriteOp, DbError, db_closed, enqueue}
use longclaw.Database.Queue.{enqueue-running}
use longclaw.Database.Batches.{Running, close_writer}
use longclaw.Database.Batches.Flush.{concat, accepted, Fits, close_writer-flushes}

abbrev pub write_queue_size : ℕ
write_queue_size = 100000

-- The first `select`: whether the call goes on.
unfoldable pub passes : Writer → Bool
passes w = not w.done

-- The second `select`, or `none` while it blocks. If both of its cases are ready, Go takes either.
unfoldable pub offer : (takes_write : Bool) → Writer → WriteOp → Option (Go DbError Writer)
offer takes_write w op =
    if ltb (length w.writes) write_queue_size && (not w.done || takes_write)
    then some (ok (record w { writes = w.writes ++ (op ∷ []) }))
    else if w.done
    then some (err db_closed)
    else none

-- With nothing between the two, they are the whole call.
offer-enqueue :
    (takes_write : Bool) (w : Writer) (op : WriteOp)
    → w.done ≡ false
    → length w.writes < write_queue_size
    → offer takes_write w op ≡ some (enqueue w op)
unfolding offer
offer-enqueue takes_write w op opened room =
    rw (enqueue-running w op opened, offer, opened, lt→ltb _ _ room) refl

offer-empty :
    (takes_write : Bool) (w : Writer) (op : WriteOp)
    → w.writes ≡ []
    → w.done ≡ true
    → offer takes_write w op
      ≡ some (if takes_write then ok (record { writes = op ∷ []; done = true }) else err db_closed)
unfolding offer
offer-empty true w op empty closed = rw (offer, empty, closed) refl
offer-empty false w op empty closed = rw (offer, empty, closed) refl

refused-closed : (w : Writer) (op : WriteOp) → enqueue w op ≡ err db_closed → w.done ≡ true
refused-closed w op e = elim (Bool-cases w.done) [
  | inl closed ↦ closed
  | inr opened ↦ absurd (clash (sym (enqueue-running w op opened) ∙ e))
]
  where
    clash : {w : Writer} → ◌≡◌ {A = Go DbError Writer} (ok w) (err db_closed) → ⊥
    clash h = cc

-- Of a database that is open and has committed no batch of more than 2000 writes: a call of `enqueue` that passes
-- its first test before `Close` and comes to its second after `Close` has returned can take either case. It
-- reports that the database is closed, or it reports success, and then its write is in the queue that
-- nobody reads any more, while exactly the writes queued before are committed. A call that begins after
-- `Close` is refused.
pub close_writer-offer :
    (r : Running) (op : WriteOp)
    → r.writer.done ≡ false
    → All Fits r.committed
    → let after = close_writer r in
      (passes r.writer ≡ true)
      × (passes after.writer ≡ false)
      × (offer false after.writer op ≡ some (err db_closed))
      × (offer true after.writer op ≡ some (ok (record { writes = op ∷ []; done = true })))
      × (concat after.committed ≡ accepted r)
unfolding passes
close_writer-offer r op opened small =
    let (same, empty, fits, refused) = close_writer-flushes r small in
    let closed = refused-closed (close_writer r).writer op (refused op) in
    (
      rw opened refl,
      rw closed refl,
      offer-empty false (close_writer r).writer op empty closed,
      offer-empty true (close_writer r).writer op empty closed,
      same,
    )
