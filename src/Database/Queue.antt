-- ===== src/Database/Queue.antt =====
-- The queue of writes: open, it takes every write at its end; closed, none.
use longclaw.Base.{
  ◌≡◌, ◌≢◌, ◌∙◌, sym, inl, inr, Bool-cases, panic, refl, Bool, true, false, [], ◌∷◌, ◌++◌,
  if◌then◌else◌, Go, ok, err,
}
use longclaw.Database.{Writer, WriteOp, DbError, db_closed, enqueue}

pub enqueue-running :
    (w : Writer) (op : WriteOp)
    → w.done ≡ false
    → enqueue w op ≡ ok (record w { writes = w.writes ++ (op ∷ []) })
unfolding enqueue
enqueue-running w op e = by_done w.done e
  where
    by_done :
        (done : Bool)
        → done ≡ false
        → ◌≡◌ {A = Go DbError Writer}
            (if done then err db_closed else ok (record w { writes = w.writes ++ (op ∷ []) }))
            (ok (record w { writes = w.writes ++ (op ∷ []) }))
    by_done done e = rw e refl

pub enqueue-closed : (w : Writer) (op : WriteOp) → w.done ≡ true → enqueue w op ≡ err db_closed
unfolding enqueue
enqueue-closed w op e = rw (enqueue, e) refl

pub enqueue-ne-panic : (w : Writer) (op : WriteOp) → enqueue w op ≢ panic
enqueue-ne-panic w op e = elim (Bool-cases w.done) [
  | inl shut ↦ not_err (sym (enqueue-closed w op shut) ∙ e)
  | inr running ↦ not_ok (sym (enqueue-running w op running) ∙ e)
]
  where
    not_err : ◌≡◌ {A = Go DbError Writer} (err db_closed) panic → ⊥
    not_err h = cc

    not_ok : {w : Writer} → ◌≡◌ {A = Go DbError Writer} (ok w) panic → ⊥
    not_ok h = cc
