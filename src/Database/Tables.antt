-- ===== src/Database/Tables.antt =====
-- The tables of the database (database/db_helper.go) and what each queued statement of
-- database/dao.go does to them. A NULL is `none`; the `created_at` that the engine fills in is left out.
pub mod Answers
use longclaw.Base.{
  ℕ, ◌+◌, Bool, true, false, not, ◌&&◌, Option, none, some, List, [], ◌∷◌, ◌++◌, map, foldl, filter,
  Bytes, bytes_eq, ◌==◌, if◌then◌else◌, ℤ,
}
use longclaw.Database.{
  RequestLog, WriteOp, response_time_update, request_log_delete, scheduled_message_sent,
  scheduled_message_insert, total_requests_update, request_log_insert,
}

-- A row of `stress_test`.
pub record TestRow : Type 0 where
  pub id : ℕ
  pub name : Bytes
  pub created_at : ℕ
  pub total_requests : ℕ
  pub test_time_secs : ℤ
  pub request_per_second : ℤ
  pub node_test_mode : Bytes
  pub test_type : Bytes
  pub source_test_id : Option ℤ

-- A row of `request_response_log`. Rows of older databases have no value in the later columns.
pub record LogRow : Type 0 where
  pub id : ℕ
  pub request_time : ℕ
  pub response_time : Option ℕ
  pub time_taken : Option ℤ
  pub stress_test_id : ℕ
  pub reference : Bytes
  pub connection_id : Bytes
  pub mti : Option Bytes
  pub processing_code : Option Bytes
  pub pan : Option Bytes
  pub amount : Option Bytes
  pub currency : Option Bytes
  pub request_message : Option Bytes
  pub response_code : Option Bytes
  pub auth_id : Option Bytes
  pub original_log_id : Option ℕ

pub record ScheduledMessage : Type 0 where
  pub id : ℕ
  pub reference : Bytes
  pub message : Bytes
  pub created_at : ℕ
  pub connection_id : Bytes
  pub stress_test_id : ℕ
  pub sent_at : Option ℕ

-- The tables, each in the order of its ids, and the ids that AUTOINCREMENT gives next.
pub record Tables : Type 0 where
  pub tests : List TestRow
  pub log : List LogRow
  pub scheduled : List ScheduledMessage
  pub next_test : ℕ
  pub next_row : ℕ
  pub next_scheduled : ℕ

-- SQL's `=` with a text: a NULL is not equal to anything.
abbrev pub is_text : Option Bytes → Bytes → Bool
is_text none s = false
is_text (some t) s = bytes_eq t s

abbrev pub is_null {ℓ} : {A : Type ℓ} → Option A → Bool
is_null none = true
is_null (some a) = false

-- What an UPDATE or DELETE of the log finds its rows by.
pub record Key : Type 0 where
  pub reference : Bytes
  pub connection_id : Bytes
  pub mti : Bytes

-- `reference = ? AND connection_id = ? AND mti = ? AND time_taken IS NULL`
unfoldable pub unanswered : Key → LogRow → Bool
unanswered key row =
    bytes_eq row.reference key.reference
    && (bytes_eq row.connection_id key.connection_id
        && (is_text row.mti key.mti && is_null row.time_taken))

-- What the UPDATE of a response sets.
pub record Answer : Type 0 where
  pub request_time : ℕ
  pub response_time : ℕ
  pub time_taken : ℤ
  pub response_code : Bytes
  pub auth_id : Bytes

unfoldable pub answered_row : Answer → LogRow → LogRow
answered_row answer row = record row {
  request_time = answer.request_time;
  response_time = some answer.response_time;
  time_taken = some answer.time_taken;
  response_code = some answer.response_code;
  auth_id = some answer.auth_id;
}

unfoldable pub answer_row : Answer → Key → LogRow → LogRow
unfolding unanswered answered_row
answer_row answer key row = if unanswered key row then answered_row answer row else row

unfoldable pub delete_rows : Key → List LogRow → List LogRow
unfolding unanswered
delete_rows key log = filter (λ row. not (unanswered key row)) log

unfoldable pub mark_row :
    ℕ → (reference connection_id : Bytes) → ScheduledMessage → ScheduledMessage
mark_row sent_at reference connection_id row =
    if bytes_eq row.reference reference && bytes_eq row.connection_id connection_id
    then record row { sent_at = some sent_at }
    else row

unfoldable pub total_row : (total id : ℕ) → TestRow → TestRow
total_row total id row = if row.id == id then record row { total_requests = total } else row

unfoldable pub new_row : ℕ → RequestLog → Option ℕ → LogRow
new_row id entry original = record {
  id = id;
  request_time = entry.request_time;
  response_time = none;
  time_taken = none;
  stress_test_id = entry.stress_test_id;
  reference = entry.reference;
  connection_id = entry.connection_id;
  mti = some entry.mti;
  processing_code = some entry.processing_code;
  pan = some entry.pan;
  amount = some entry.amount;
  currency = some entry.currency;
  request_message = some entry.request_message;
  response_code = none;
  auth_id = none;
  original_log_id = original;
}

-- The statement of each write.
unfoldable pub apply_op : Tables → WriteOp → Tables
unfolding answer_row delete_rows mark_row total_row new_row
apply_op t
      (response_time_update request_time response_time time_taken code auth_id reference
        connection_id mti) =
    let answer : Answer = record {
      request_time = request_time;
      response_time = response_time;
      time_taken = time_taken;
      response_code = code;
      auth_id = auth_id;
    } in
    let key : Key = record { reference = reference; connection_id = connection_id; mti = mti } in
    record t { log = map (answer_row answer key) t.log }
apply_op t (request_log_delete reference connection_id mti) = record t {
  log =
      delete_rows (record { reference = reference; connection_id = connection_id; mti = mti })
        t.log;
}
apply_op t (scheduled_message_sent sent_at reference connection_id) = record t {
  scheduled = map (mark_row sent_at reference connection_id) t.scheduled;
}
apply_op t (scheduled_message_insert stress_test_id created_at reference connection_id message) =
    record t {
      scheduled =
          t.scheduled
          ++ (record {
            id = t.next_scheduled;
            reference = reference;
            message = message;
            created_at = created_at;
            connection_id = connection_id;
            stress_test_id = stress_test_id;
            sent_at = none;
          }
              ∷ []);
      next_scheduled = t.next_scheduled + 1;
    }
apply_op t (total_requests_update total id) = record t { tests = map (total_row total id) t.tests }
apply_op t (request_log_insert entry original) = record t {
  log = t.log ++ (new_row t.next_row entry original ∷ []);
  next_row = t.next_row + 1;
}

abbrev pub apply_all : Tables → List WriteOp → Tables
apply_all t ops = foldl apply_op t ops
