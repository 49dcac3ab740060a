-- ===== src/Database/Tables/Answers.antt =====
-- A request's row from its INSERT to its answer.
use longclaw.Base.{
  ℕ, ◌≡◌, ◌∙◌, refl, sym, ap, Bool, true, false, not, ◌&&◌, Option, none, some, ℤ, Bytes, All, List,
  [], ◌∷◌, ◌++◌, append-nil, map, map-append, filter-append, bytes_eq, bytes_eq→eq, bytes_eq_refl,
  Bool-cases, inl, inr,
}
use longclaw.Database.{
  RequestLog, WriteOp, response_time_update, request_log_delete, request_log_insert,
}
use longclaw.Database.Tables.{
  LogRow, Tables, Key, Answer, is_text, is_null, unanswered, answered_row, answer_row, delete_rows,
  new_row, apply_op,
}

and_false : (b : Bool) → (b && false) ≡ false
and_false true = refl
and_false false = refl

unanswered-answered_row :
    (a : Answer) (k : Key) (row : LogRow) → unanswered k (answered_row a row) ≡ false
unfolding unanswered answered_row
unanswered-answered_row a k row =
    rw
      (
        and_false (is_text row.mti k.mti),
        and_false (bytes_eq row.connection_id k.connection_id),
        and_false (bytes_eq row.reference k.reference),
      )
      refl

answer_row_other :
    (a : Answer) (k : Key) (row : LogRow) → unanswered k row ≡ false → answer_row a k row ≡ row
unfolding answer_row
answer_row_other a k row e = rw e refl

answer_row_hit :
    (a : Answer) (k : Key) (row : LogRow)
    → unanswered k row ≡ true
    → answer_row a k row ≡ answered_row a row
unfolding answer_row
answer_row_hit a k row e = rw e refl

answer_row_twice :
    (a b : Answer) (k : Key) (row : LogRow)
    → answer_row b k (answer_row a k row) ≡ answer_row a k row
answer_row_twice a b k row = elim (Bool-cases (unanswered k row)) [
  | inl e ↦
      ap (answer_row b k) (answer_row_hit a k row e)
      ∙ answer_row_other b k (answered_row a row) (unanswered-answered_row a k row)
      ∙ sym (answer_row_hit a k row e)
  | inr e ↦
      ap (answer_row b k) (answer_row_other a k row e)
      ∙ answer_row_other b k row e
      ∙ sym (answer_row_other a k row e)
]

map_answer_twice :
    (a b : Answer) (k : Key) (rows : List LogRow)
    → map (answer_row b k) (map (answer_row a k) rows) ≡ map (answer_row a k) rows
map_answer_twice a b k [] = refl
map_answer_twice a b k (row ∷ rows) =
    rw (answer_row_twice a b k row, map_answer_twice a b k rows) refl

-- The row is of this request, of this type, to this client, and has no answer.
abbrev pub Waits : Key → LogRow → Type 0
Waits k row =
    (row.reference ≡ k.reference)
    × (row.connection_id ≡ k.connection_id)
    × (row.mti ≡ some k.mti)
    × (row.time_taken ≡ none)

-- No row of the log waits for an answer to this request.
abbrev pub NoneWaits : Key → List LogRow → Type 0
NoneWaits k rows = All (λ row. ¬ Waits k row) rows

and_true : (a b : Bool) → (a && b) ≡ true → (a ≡ true) × (b ≡ true)
and_true true b e = (refl, e)
and_true false b e = cc

is_text-some : (o : Option Bytes) (s : Bytes) → is_text o s ≡ true → o ≡ some s
is_text-some none s e = cc
is_text-some (some t) s e = ap {A = Bytes} some (bytes_eq→eq t s e)

is_null-none : (o : Option ℤ) → is_null o ≡ true → o ≡ none
is_null-none none e = refl
is_null-none (some z) e = cc

unanswered-Waits : (k : Key) (row : LogRow) → unanswered k row ≡ true → Waits k row
unfolding unanswered
unanswered-Waits k row e =
    let (reference, e1) = and_true (bytes_eq row.reference k.reference) _ e in
    let (connection, e2) = and_true (bytes_eq row.connection_id k.connection_id) _ e1 in
    let (mti, open_row) = and_true (is_text row.mti k.mti) _ e2 in
    (
      bytes_eq→eq row.reference k.reference reference,
      bytes_eq→eq row.connection_id k.connection_id connection,
      is_text-some row.mti k.mti mti,
      is_null-none row.time_taken open_row,
    )

unanswered-false : (k : Key) (row : LogRow) → ¬ Waits k row → unanswered k row ≡ false
unanswered-false k row h = elim (Bool-cases (unanswered k row)) [
  | inl e ↦ absurd (h (unanswered-Waits k row e))
  | inr e ↦ e
]

map_answer_none :
    (a : Answer) (k : Key) (rows : List LogRow)
    → NoneWaits k rows
    → map (answer_row a k) rows ≡ rows
map_answer_none a k [] h = refl
map_answer_none a k (row ∷ rows) (h, hs) =
    rw (answer_row_other a k row (unanswered-false k row h), map_answer_none a k rows hs) refl

delete_rows_none : (k : Key) (rows : List LogRow) → NoneWaits k rows → delete_rows k rows ≡ rows
unfolding delete_rows
delete_rows_none k [] h = refl
delete_rows_none k (row ∷ rows) (h, hs) =
    rw (unanswered-false k row h, delete_rows_none k rows hs) refl

-- The key under which an entry waits.
abbrev pub key_of : RequestLog → Key
key_of entry = record {
  reference = entry.reference;
  connection_id = entry.connection_id;
  mti = entry.mti;
}

unanswered-new_row :
    (id : ℕ) (entry : RequestLog) (o : Option ℕ)
    → unanswered (key_of entry) (new_row id entry o) ≡ true
unfolding unanswered new_row
unanswered-new_row id entry o =
    rw (bytes_eq_refl entry.reference, bytes_eq_refl entry.connection_id, bytes_eq_refl entry.mti)
      refl

abbrev pub answer_op : Answer → Key → WriteOp
answer_op a k =
    response_time_update a.request_time a.response_time a.time_taken a.response_code a.auth_id
      k.reference k.connection_id k.mti

abbrev pub delete_op : Key → WriteOp
delete_op k = request_log_delete k.reference k.connection_id k.mti

delete_rows-append :
    (k : Key) (rows : List LogRow) (row : LogRow)
    → unanswered k row ≡ true
    → NoneWaits k rows
    → delete_rows k (rows ++ (row ∷ [])) ≡ rows
unfolding delete_rows
delete_rows-append k rows row waits h =
    filter-append (λ r. not (unanswered k r)) rows (row ∷ [])
    ∙ rw waits (append-nil (delete_rows k rows) ∙ delete_rows_none k rows h)

-- An answer is recorded once: a second UPDATE for the same request changes no row, whatever the tables.
pub apply_op-answer_twice :
    (t : Tables) (k : Key) (a b : Answer)
    → apply_op (apply_op t (answer_op a k)) (answer_op b k) ≡ apply_op t (answer_op a k)
unfolding apply_op
apply_op-answer_twice t k a b = ap (λ rows. record t { log = rows }) (map_answer_twice a b k t.log)

-- When no row of the same reference, client and message type lacks its answer, a request is logged as a
-- new row at the end; its answer fills in that row and leaves all others, those of the same reference
-- and client but of another type included, and deleting it before it is answered leaves the log as it was.
pub apply_op-insert :
    (t : Tables) (entry : RequestLog) (original : Option ℕ) (a : Answer)
    → NoneWaits (key_of entry) t.log
    → let inserted = apply_op t (request_log_insert entry original) in
      ((apply_op inserted (answer_op a (key_of entry))).log
        ≡ t.log ++ (answered_row a (new_row t.next_row entry original) ∷ []))
      × ((apply_op inserted (delete_op (key_of entry))).log ≡ t.log)
unfolding apply_op
apply_op-insert t entry original a h =
    let row = new_row t.next_row entry original in
    let waits = unanswered-new_row t.next_row entry original in
    (
      map-append (answer_row a (key_of entry)) t.log (row ∷ [])
          ∙ rw (map_answer_none a (key_of entry) t.log h, answer_row_hit a (key_of entry) row waits)
              refl,
      delete_rows-append (key_of entry) t.log row waits h,
    )
