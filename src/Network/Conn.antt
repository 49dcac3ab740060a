-- ===== src/Network/Conn.antt =====
-- network/server/iso_server.go: one client connection. The goroutines that share it are steps on its
-- state: one message read, one answer built, one message written, `Close`.
pub mod Steps
pub mod Sound
pub mod Matching
pub mod FollowUp
pub mod NoPanic
pub mod Probe
use longclaw.Base.{
  ℕ, zero, suc, ◌+◌, Bool, true, false, ◌||◌, ◌&&◌, Option, none, some, List, [], ◌∷◌, ◌++◌, Bytes,
  codes, bytes_eq, length, slice, ltb, leb, if◌then◌else◌, Go, ok, err, panic, ◌>>=◌,
}
use longclaw.Base.Dict.{Dict, load, store, delete}
use longclaw.Database.{
  Writer, RequestLog, DbError, update_response_time, add_request_log, delete_request_log,
  mark_scheduled_message_sent,
}
use longclaw.Iso.Spec.{IsoSpec}
use longclaw.Iso.Message.{Message, Error, new_iso8583_message}
use longclaw.Iso.Edit.{get_field}
use longclaw.Iso.Format.{format_iso}
use longclaw.Network.Mti.{is_request_mti, is_response_mti, match_key}
use longclaw.Network.Frame.{frame}
use longclaw.Network.Response.{Env, build_response}

-- A message to write (`IsoRequestResponse`): only messages with a reference are awaited.
pub record Queued : Type 0 where
  pub reference : Bytes
  pub mti : Bytes
  pub stress_test_id : ℕ
  pub raw_request : Bytes

pub record SentRequest : Type 0 where
  pub mti : Bytes
  pub sent_at : ℕ

pub record PendingFollowUp : Type 0 where
  pub mti : Bytes
  pub raw_message : Bytes
  pub stress_test_id : ℕ

-- The connection, with what it shares: the queue of the database and the server's counters.
-- `conn_tests` has for each running test the message in its channel, which holds one; `responding` are
-- the requests whose goroutine has not yet built the answer; `socket` is what has been written.
pub record Conn : Type 0 where
  pub connection_id : Bytes
  pub write_channel : List Queued
  pub sent_times : Dict SentRequest
  pub follow_ups : Dict PendingFollowUp
  pub conn_tests : Dict (Option Bytes)
  pub responding : List Message
  pub socket : List Bytes
  pub closed : Bool
  pub db : Writer
  pub sent_count : ℕ
  pub dropped_count : ℕ
  pub unmatched_count : ℕ

abbrev pub write_channel_size : ℕ
write_channel_size = 1024

-- The `default` case of `select`: the channel is full.
unfoldable pub try_queue : Queued → Conn → Option Conn
try_queue q c =
    if ltb (length c.write_channel) write_channel_size
    then some (record c { write_channel = c.write_channel ++ (q ∷ []) })
    else none

-- An error of a write to the database is logged and changes nothing.
unfoldable pub logged : Conn → Go DbError Writer → Conn
logged c (ok w) = record c { db = w }
logged c (err e) = c
logged c panic = c

unfoldable pub drop_message : (reference mti : Bytes) → Conn → Conn
unfolding logged
drop_message reference mti c =
    logged (record c { dropped_count = c.dropped_count + 1 })
      (delete_request_log c.db reference c.connection_id mti)

unfoldable pub follow_up_entry : Conn → ℕ → Bytes → PendingFollowUp → RequestLog
follow_up_entry c now reference follow_up = record {
  stress_test_id = follow_up.stress_test_id;
  request_time = now;
  reference = reference;
  connection_id = c.connection_id;
  mti = follow_up.mti;
  processing_code = [];
  pan = [];
  amount = [];
  currency = [];
  request_message = [];
  original_log_id = 0;
}

unfoldable pub follow_up_message : Bytes → PendingFollowUp → Queued
follow_up_message reference follow_up = record {
  reference = reference;
  mti = follow_up.mti;
  stress_test_id = follow_up.stress_test_id;
  raw_request = follow_up.raw_message;
}

unfoldable pub queue_follow_up : ℕ → Bytes → PendingFollowUp → Conn → Conn
unfolding logged
queue_follow_up now reference follow_up c =
    elim (try_queue (follow_up_message reference follow_up) c) [
      | some c' ↦ logged c' (mark_scheduled_message_sent c'.db reference c'.connection_id now)
      | none ↦ drop_message reference follow_up.mti c
    ]

-- The row is logged first; if that fails, nothing is sent.
unfoldable pub send_follow_up : ℕ → Bytes → PendingFollowUp → Conn → Conn
unfolding follow_up_entry
send_follow_up now reference follow_up c =
    elim (add_request_log c.db (follow_up_entry c now reference follow_up)) [
      | ok w ↦ queue_follow_up now reference follow_up (record c { db = w })
      | err e ↦ c
      | panic ↦ c
    ]

-- When a message was read, and when its follow-up is sent.
pub record Times : Type 0 where
  pub received_at : ℕ
  pub followed_at : ℕ

-- The request is answered: its row is updated, and its follow-up sent.
unfoldable pub match_response : Times → Message → Bytes → SentRequest → Conn → Conn
unfolding logged
match_response times m reference request c =
    let updated = logged c (
      update_response_time c.db reference c.connection_id request.mti request.sent_at
        times.received_at (get_field m 38) (get_field m 37)) in
    elim (load reference updated.follow_ups) [
      | none ↦ updated
      | some follow_up ↦
          send_follow_up times.followed_at reference follow_up
            (record updated { follow_ups = delete reference updated.follow_ups })
    ]

-- A message with a key that no request has is counted.
unfoldable pub handle_response : Times → Message → Bytes → Conn → Conn
handle_response times m key c = elim (load key c.sent_times) [
  | none ↦ record c { unmatched_count = c.unmatched_count + 1 }
  | some request ↦
      match_response times m (get_field m 36) request
        (record c { sent_times = delete key c.sent_times })
]

-- Why the read loop stops: it waits until a connection test has taken the message before.
pub data Stuck : Type 0 where
  wait_chan_full : Stuck

-- A message that can be parsed, by its MTI.
unfoldable pub dispatch : Times → Bytes → Message → Conn → Go Stuck Conn
dispatch times mti m c =
    if is_request_mti mti
    then ok (record c { responding = m ∷ c.responding })
    else if is_response_mti mti
    then (do key ← match_key mti (get_field m 36); ok (handle_response times m key c))
    else ok c

unfoldable pub parse_and_dispatch : IsoSpec → Times → (mti msg : Bytes) → Conn → Go Stuck Conn
unfolding dispatch
parse_and_dispatch spec times mti msg c = elim (new_iso8583_message msg spec) [
  | ok m ↦ dispatch times mti m c
  | err e ↦ ok c
  | panic ↦ panic
]

abbrev pub with_key : Bytes → Option (Option Bytes) → Option (Bytes × Option Bytes)
with_key stan none = none
with_key stan (some unread) = some (stan, unread)

-- The channel of a connection test that waits for this message, with its key.
unfoldable pub waiting_test : (mti msg : Bytes) → Conn → Go Stuck (Option (Bytes × Option Bytes))
waiting_test mti msg c =
    if (bytes_eq mti (codes "0810") || bytes_eq mti (codes "0800")) && leb 46 (length msg)
    then (do stan ← slice msg 36 46; ok (with_key stan (load stan c.conn_tests)))
    else ok none

unfoldable pub deliver :
    IsoSpec → Times → (mti msg : Bytes) → Conn → Option (Bytes × Option Bytes) → Go Stuck Conn
unfolding parse_and_dispatch
deliver spec times mti msg c none = parse_and_dispatch spec times mti msg c
deliver spec times mti msg c (some (stan, none)) =
    ok (record c { conn_tests = store stan (some msg) c.conn_tests })
deliver spec times mti msg c (some (stan, some unread)) = err wait_chan_full

-- One round of `HandleRead`, with a message of the socket.
unfoldable pub handle_message : IsoSpec → Times → Bytes → Conn → Go Stuck Conn
unfolding waiting_test deliver
handle_message spec times msg c = if ltb (length msg) 20 then ok c else (do
  mti ← slice msg 0 4
  waiting ← waiting_test mti msg c
  deliver spec times mti msg c waiting)

abbrev pub answer_message : Bytes → Queued
answer_message raw = record { reference = []; mti = []; stress_test_id = 0; raw_request = raw }

unfoldable pub queue_answer : Bytes → Conn → Conn
queue_answer raw c = elim (try_queue (answer_message raw) c) [
  | some c' ↦ c'
  | none ↦ record c { dropped_count = c.dropped_count + 1 }
]

-- The goroutine of one request.
unfoldable pub respond : Env → Message → Conn → Go ⊥ Conn
respond env request c = do
  resp ← build_response env request
  raw ← format_iso resp
  ok (queue_answer raw c)

unfoldable pub close : Conn → Conn
close c = record c { closed = true }

-- The time is stored before the write, so that no answer comes before it.
unfoldable pub stamp : (now : ℕ) → Queued → Conn → Go ⊥ Conn
stamp now q c = if bytes_eq q.reference [] then ok c else do
  key ← match_key q.mti q.reference
  ok (record c { sent_times = store key (record { mti = q.mti; sent_at = now }) c.sent_times })

unfoldable pub write_stamped : (written : Bool) → Queued → Conn → Conn
unfolding frame close
write_stamped written q c =
    if written
    then record c { socket = c.socket ++ (frame q.raw_request ∷ []); sent_count = c.sent_count + 1 }
    else close c

-- One round of `HandleChannelEvents`; `written` says whether the socket takes the message.
unfoldable pub write_next : (now : ℕ) → (written : Bool) → Conn → Go ⊥ Conn
unfolding stamp write_stamped
write_next now written c = elim c.write_channel [
  | [] ↦ ok c
  | q ∷ rest ↦ (do
    stamped ← stamp now q (record c { write_channel = rest })
    ok (write_stamped written q stamped))
]
