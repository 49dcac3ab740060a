-- ===== src/Database.antt =====
-- database/dao.go and database/batch_writer.go: the writes that the load generator queues. The SQL
-- statements are values; what they do to the tables is in Database.Tables.
pub mod Queue
pub mod Schema
pub mod Tables
pub mod Refunds
pub mod StressTests
pub mod Results
pub mod Batches
use longclaw.Base.{
  ℕ, ◌-◌, ◌/◌, Bool, Option, none, some, List, [], ◌∷◌, ◌++◌, Bytes, leb, ◌==◌, if◌then◌else◌, Go,
  ok, err, ℤ, pos,
}
use longclaw.Strconv.{negate}

-- The columns that a log entry is queued with (`domain.RequestLog`). A time is in nanoseconds.
pub record RequestLog : Type 0 where
  pub stress_test_id : ℕ
  pub request_time : ℕ
  pub reference : Bytes
  pub connection_id : Bytes
  pub mti : Bytes
  pub processing_code : Bytes
  pub pan : Bytes
  pub amount : Bytes
  pub currency : Bytes
  pub request_message : Bytes
  pub original_log_id : ℕ

-- One queued write: a constructor for each statement, with its arguments in the order of the call.
pub data WriteOp : Type 0 where
  response_time_update :
      (request_time response_time : ℕ) (time_taken : ℤ) (response_code auth_id : Bytes)
      (reference connection_id mti : Bytes)
      → WriteOp
  request_log_delete : (reference connection_id mti : Bytes) → WriteOp
  scheduled_message_sent : (sent_at : ℕ) (reference connection_id : Bytes) → WriteOp
  scheduled_message_insert :
      (stress_test_id created_at : ℕ) (reference connection_id message : Bytes) → WriteOp
  total_requests_update : (total stress_test_id : ℕ) → WriteOp
  request_log_insert : (entry : RequestLog) (original : Option ℕ) → WriteOp

-- The queue, the oldest write first, and whether `Close` has been called. A caller that finds the
-- queue full waits for the writer, which the order of the steps leaves open.
pub record Writer : Type 0 where
  pub writes : List WriteOp
  pub done : Bool

pub data DbError : Type 0 where
  db_closed : DbError

unfoldable pub enqueue : Writer → WriteOp → Go DbError Writer
enqueue w op = if w.done then err db_closed else ok (record w { writes = w.writes ++ (op ∷ []) })

-- `responseTime.Sub(requestTime).Milliseconds()`, which rounds towards zero
unfoldable pub milliseconds : ℕ → ℕ → ℤ
milliseconds from until =
    if leb from until then pos ((until - from) / 1000000) else negate ((from - until) / 1000000)

unfoldable pub null_if_zero : ℕ → Option ℕ
null_if_zero n = if n == 0 then none else some n

unfoldable pub update_response_time :
    Writer
    → (reference connection_id mti : Bytes) (request_time response_time : ℕ)
      (response_code auth_id : Bytes)
    → Go DbError Writer
unfolding enqueue milliseconds
update_response_time w reference connection_id mti request_time response_time response_code
      auth_id =
    enqueue w (
      response_time_update request_time response_time (milliseconds request_time response_time)
        response_code auth_id reference connection_id mti)

unfoldable pub delete_request_log :
    Writer → (reference connection_id mti : Bytes) → Go DbError Writer
unfolding enqueue
delete_request_log w reference connection_id mti =
    enqueue w (request_log_delete reference connection_id mti)

unfoldable pub mark_scheduled_message_sent :
    Writer → (reference connection_id : Bytes) (sent_at : ℕ) → Go DbError Writer
unfolding enqueue
mark_scheduled_message_sent w reference connection_id sent_at =
    enqueue w (scheduled_message_sent sent_at reference connection_id)

unfoldable pub add_scheduled_message :
    Writer
    → (stress_test_id created_at : ℕ) (reference connection_id message : Bytes) → Go DbError Writer
unfolding enqueue
add_scheduled_message w stress_test_id created_at reference connection_id message =
    enqueue w (scheduled_message_insert stress_test_id created_at reference connection_id message)

unfoldable pub add_request_log : Writer → RequestLog → Go DbError Writer
unfolding enqueue null_if_zero
add_request_log w entry = enqueue w (request_log_insert entry (null_if_zero entry.original_log_id))

unfoldable pub set_total_requests : Writer → (stress_test_id total : ℕ) → Go DbError Writer
unfolding enqueue
set_total_requests w stress_test_id total = enqueue w (total_requests_update total stress_test_id)
