-- ===== src/Network/Load.antt =====
-- The messages that the load generator sends: `sendSingleMessage` and `newRequestLog` of
-- network/server/iso_server.go, `sendRefund` of network/server/refund.go, `Substr` of utils/helper.go. The
-- clock, the random template and the random card are arguments.
pub mod Registered
use longclaw.Base.{
  ℕ, ◌+◌, ◌-◌, Bool, not, Option, none, some, [], ◌++◌, Bytes, codes, bytes_eq, length, take, drop,
  ltb, leb, if◌then◌else◌, Go, ok, err, panic, ◌>>=◌, slice_from,
}
use longclaw.Base.Dict.{store, delete}
use longclaw.Database.{RequestLog, DbError, Writer, add_request_log, add_scheduled_message}
use longclaw.Iso.Spec.{IsoSpec}
use longclaw.Iso.Message.{Message, Error, new_iso8583_message}
use longclaw.Iso.Edit.{get_mti, get_field, set_field}
use longclaw.Iso.Format.{format_iso}
use longclaw.Strings.{index_of}
use longclaw.Network.Conn.{Conn, Queued, PendingFollowUp, try_queue, drop_message, logged}

-- The parts of a card (`dtos.Card`) that a message takes.
pub record Card : Type 0 where
  pub card_number : Bytes
  pub cvv2 : Bytes
  pub track2_data : Bytes
  pub expiry_date : Bytes

pub record IsoMsgTemplate : Type 0 where
  pub message : Bytes
  pub original_message : Bytes

-- `Substr` of ASCII text, in which a rune is a byte.
unfoldable pub substr : Bytes → ℕ → ℕ → Bytes
substr input start length' =
    if leb (length input) start
    then []
    else if ltb (length input) (start + length')
    then take (length input - start) (drop start input)
    else take length' (drop start input)

-- The replaced tag CV ends field 123: what stood behind it is left out.
unfoldable pub card_tag : Card → Bytes → Bytes
card_tag card len_str =
    if bytes_eq len_str (codes "05")
    then codes "CV051 " ++ card.cvv2
    else if bytes_eq len_str (codes "07")
    then codes "CV0711 " ++ (card.cvv2 ++ codes "M")
    else []

unfoldable pub replace_tag : Card → Bytes → Message → Message
unfolding substr card_tag
replace_tag card de123 m = elim (index_of de123 (codes "CV")) [
  | none ↦ m
  | some ind ↦ set_field m 122 (substr de123 0 ind ++ card_tag card (substr de123 (ind + 2) 2))
]

-- A field is replaced if it is there.
unfoldable pub replace_field : ℕ → Bytes → Message → Message
replace_field idx value m = if bytes_eq (get_field m idx) [] then m else set_field m idx value

unfoldable pub with_card : Card → Bytes → Message → Message
unfolding replace_tag replace_field
with_card card reference m =
    let m1 = replace_field 1 card.card_number m in
    let m2 = replace_field 13 card.expiry_date m1 in
    let m3 = replace_field 34 card.track2_data m2 in
    let de123 = get_field m3 122 in
    let m4 = if bytes_eq de123 [] then m3 else replace_tag card de123 m3 in
    set_field m4 36 reference

unfoldable pub get_iso_message : IsoSpec → Card → Bytes → Bytes → Go Error Message
unfolding with_card
get_iso_message spec card reference message = do
  m ← new_iso8583_message message spec
  ok (with_card card reference m)

-- The message to send, and the one to send when it is answered.
unfoldable pub prepare :
    IsoSpec → Card → Bytes → IsoMsgTemplate → Go Error (Message × Option Message)
prepare spec card reference template =
    if bytes_eq template.original_message []
    then (do m ← get_iso_message spec card reference template.message; ok (m, none))
    else do
      m ← get_iso_message spec card reference template.original_message
      scheduled ← get_iso_message spec card reference template.message
      ok (m, some scheduled)

unfoldable pub new_request_log :
    (stress_test_id now : ℕ) (reference connection_id : Bytes) (original_log_id : ℕ)
    → Message
    → Go Error RequestLog
new_request_log stress_test_id now reference connection_id original_log_id msg = do
  mti ← get_mti msg
  text ← format_iso msg
  ok (record {
    stress_test_id = stress_test_id;
    request_time = now;
    reference = reference;
    connection_id = connection_id;
    mti = mti;
    processing_code = get_field msg 2;
    pan = get_field msg 1;
    amount = get_field msg 3;
    currency = get_field msg 48;
    request_message = text;
    original_log_id = original_log_id;
  })

unfoldable pub entry_message : RequestLog → Queued
entry_message entry = record {
  reference = entry.reference;
  mti = entry.mti;
  stress_test_id = entry.stress_test_id;
  raw_request = entry.request_message;
}

-- The follow-up is stored before the original is queued, so that no answer comes before it.
unfoldable pub register : (stress_test_id now : ℕ) → Bytes → Option Message → Conn → Go Error Conn
unfolding logged
register stress_test_id now reference none c = ok c
register stress_test_id now reference (some scheduled) c = do
  mti ← get_mti scheduled
  text ← format_iso scheduled
  ok
      (record (logged c
        (add_scheduled_message c.db stress_test_id now reference c.connection_id text)) {
          follow_ups =
              store reference
                (record { mti = mti; raw_message = text; stress_test_id = stress_test_id })
                c.follow_ups;
        })

unfoldable pub forget : Bytes → Conn → Conn
forget reference c = record c { follow_ups = delete reference c.follow_ups }

unfoldable pub queue_single : Queued → Conn → Conn
unfolding forget
queue_single q c = elim (try_queue q c) [
  | some c' ↦ c'
  | none ↦ drop_message q.reference q.mti (forget q.reference c)
]

-- The row is logged before the message is queued.
unfoldable pub send_logged : RequestLog → Conn → Conn
unfolding queue_single entry_message
send_logged entry c = elim (add_request_log c.db entry) [
  | ok w ↦ queue_single (entry_message entry) (record c { db = w })
  | err e ↦ forget entry.reference c
  | panic ↦ c
]

unfoldable pub send_prepared :
    (stress_test_id created_at now : ℕ) → Bytes → Message × Option Message → Conn → Go Error Conn
unfolding register new_request_log send_logged
send_prepared stress_test_id created_at now reference (m, scheduled) c = do
  registered ← register stress_test_id created_at reference scheduled c
  entry ← new_request_log stress_test_id now reference c.connection_id 0 m
  ok (send_logged entry registered)

-- A template that cannot be parsed is logged, and nothing is sent.
unfoldable pub send_single_message :
    IsoSpec
    → (stress_test_id created_at now : ℕ) → Bytes
    → IsoMsgTemplate
    → Card
    → Conn
    → Go Error Conn
unfolding prepare send_prepared
send_single_message spec stress_test_id created_at now reference template card c =
    elim (prepare spec card reference template) [
      | ok prepared ↦ send_prepared stress_test_id created_at now reference prepared c
      | err e ↦ ok c
      | panic ↦ panic
    ]
