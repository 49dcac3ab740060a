-- ===== src/Database/Refunds/Pending.antt =====
-- A sale whose refund is logged is not refunded again.
use longclaw.Base.{
  ℕ, ◌≡◌, ◌∙◌, refl, sym, arith, false, not, ◌&&◌, ◌||◌, some, List, [], ◌∷◌, ◌++◌, append-nil,
  filter, filter-append, filter-filter, filter-congr, any-append, All, codes, bytes_eq, ◌==◌,
}
use longclaw.Database.{RequestLog, request_log_insert}
use longclaw.Database.Tables.{LogRow, Tables, new_row, apply_op}
use longclaw.Database.Refunds.{is_approved_sale, reverses, refunds, is_candidate, candidate_rows}

-- The entry of a refund has the type of a request.
abbrev pub IsRequest : RequestLog → Type 0
IsRequest entry = (bytes_eq entry.mti (codes "0400") || bytes_eq entry.mti (codes "0420")) ≡ false

module _ (source : ℕ) (log : List LogRow) (id : ℕ) (entry : RequestLog) (sale : ℕ)
    (h : IsRequest entry) where
  abbrev row : LogRow
  row = new_row id entry (some sale)

  not_reversing : (o : LogRow) → reverses o row ≡ false
  unfolding reverses new_row
  not_reversing o = ground (arith, h)

  refunding : (o : LogRow) → refunds o row ≡ (o.id == sale)
  unfolding refunds new_row
  refunding o = ground arith

  not_sale : is_approved_sale source row ≡ false
  unfolding is_approved_sale new_row
  not_sale = ground arith

  candidate-append :
      (o : LogRow)
      → is_candidate source (log ++ (row ∷ [])) o
        ≡ (is_candidate source log o && not (o.id == sale))
  unfolding is_candidate
  candidate-append o =
      rw
        (
          any-append (reverses o) log (row ∷ []),
          any-append (refunds o) log (row ∷ []),
          not_reversing o,
          refunding o,
        )
        (ground arith)

  All-candidates-append :
      (os : List LogRow)
      → All
          (λ o.
            is_candidate source (log ++ (row ∷ [])) o
            ≡ (is_candidate source log o && not (o.id == sale)))
          os
  All-candidates-append [] = tt
  All-candidates-append (o ∷ os) = (candidate-append o, All-candidates-append os)

  not_candidate : (log' : List LogRow) → is_candidate source log' row ≡ false
  unfolding is_candidate
  not_candidate log' = rw not_sale refl

  candidate_rows-append :
      candidate_rows source (log ++ (row ∷ []))
      ≡ filter (λ o. not (o.id == sale)) (candidate_rows source log)
  unfolding candidate_rows
  candidate_rows-append =
      let log' = log ++ (row ∷ []) in
      filter-append (is_candidate source log') log (row ∷ [])
      ∙ rw (not_candidate log') (append-nil (filter (is_candidate source log') log))
      ∙ filter-congr (is_candidate source log')
          (λ o. is_candidate source log o && not (o.id == sale)) log (All-candidates-append log)
      ∙ sym (filter-filter (λ o. not (o.id == sale)) (is_candidate source log) log)

-- Once a refund of a sale is logged, and as long as it is not answered, that sale is no longer offered, the
-- other candidates are, in the same order, and the refund itself is not offered as a sale.
pub candidate_rows-refund :
    (t : Tables) (source : ℕ) (entry : RequestLog) (sale : ℕ)
    → IsRequest entry
    → candidate_rows source (apply_op t (request_log_insert entry (some sale))).log
      ≡ filter (λ o. not (o.id == sale)) (candidate_rows source t.log)
unfolding apply_op
candidate_rows-refund t source entry sale h =
    candidate_rows-append source t.log t.next_row entry sale h
