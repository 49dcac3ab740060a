-- ===== src/Database/Refunds.antt =====
-- `GetRefundCandidates` of database/dao.go: the sales of a test that may still be refunded.
pub mod Pending
use longclaw.Base.{
  ℕ, ◌+◌, Bool, true, false, not, ◌&&◌, ◌||◌, Option, none, some, List, [], ◌∷◌, ◌++◌, filter, any,
  take, Bytes, codes, bytes_eq, ◌==◌, if◌then◌else◌, Go, ok, err, panic, ◌>>=◌,
}
use longclaw.Database.Tables.{LogRow, Tables, is_text, is_null}

-- An approved sale that has not been reversed or refunded (`domain.RefundCandidate`).
pub record RefundCandidate : Type 0 where
  pub log_id : ℕ
  pub reference : Bytes
  pub request_message : Bytes

abbrev pub is_id : Option ℕ → ℕ → Bool
is_id none id = false
is_id (some i) id = i == id

-- `substr(processing_code, 1, 2) = '00'`
abbrev pub is_purchase : Option Bytes → Bool
is_purchase none = false
is_purchase (some code) = bytes_eq (take 2 code) (codes "00")

unfoldable pub is_approved_sale : ℕ → LogRow → Bool
is_approved_sale source_test_id o =
    (o.stress_test_id == source_test_id)
    && ((is_text o.mti (codes "0100") || is_text o.mti (codes "0200"))
        && (is_purchase o.processing_code && is_text o.response_code (codes "00")))

-- The first sub-query: the sale's reversal is logged.
unfoldable pub reverses : LogRow → LogRow → Bool
reverses o rv =
    (rv.stress_test_id == o.stress_test_id)
    && (bytes_eq rv.reference o.reference
        && (is_text rv.mti (codes "0400") || is_text rv.mti (codes "0420")))

-- The second one: a refund that is approved, or not answered yet.
unfoldable pub refunds : LogRow → LogRow → Bool
refunds o rf =
    is_id rf.original_log_id o.id
    && (is_text rf.response_code (codes "00") || is_null rf.response_code)

unfoldable pub is_candidate : ℕ → List LogRow → LogRow → Bool
unfolding is_approved_sale reverses refunds
is_candidate source_test_id log o =
    is_approved_sale source_test_id o && (not (any (reverses o) log) && not (any (refunds o) log))

unfoldable pub candidate_rows : ℕ → List LogRow → List LogRow
unfolding is_candidate
candidate_rows source_test_id log = filter (is_candidate source_test_id log) log

pub data ScanError : Type 0 where
  null_text : ScanError

-- A NULL cannot be read into a string.
unfoldable pub scan_candidate : LogRow → Go ScanError RefundCandidate
scan_candidate row = elim row.request_message [
  | none ↦ err null_text
  | some message ↦
      ok (record { log_id = row.id; reference = row.reference; request_message = message })
]

unfoldable pub scan_candidates : List LogRow → Go ScanError (List RefundCandidate)
unfolding scan_candidate
scan_candidates [] = ok []
scan_candidates (row ∷ rows) = do
  candidate ← scan_candidate row
  candidates ← scan_candidates rows
  ok (candidate ∷ candidates)

unfoldable pub get_refund_candidates : Tables → ℕ → Go ScanError (List RefundCandidate)
unfolding candidate_rows scan_candidates
get_refund_candidates t source_test_id = scan_candidates (candidate_rows source_test_id t.log)
