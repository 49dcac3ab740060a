-- ===== src/Tests/Connection.antt =====
-- A connection at which a message is written, a response comes, and its follow-up is sent.
use longclaw.Base.{
  ℕ, ◌+◌, ◌%◌, ◌<◌, ◌≤◌, ◌≡◌, ◌≢◌, ◌⊎◌, refl, arith, true, false, none, some, List, [], ◌∷◌, ◌++◌,
  Bytes, codes, bytes_eq, take, drop, replicate, length, length-replicate, ok, panic,
}
use longclaw.Base.Dict.{load, delete}
use longclaw.Database.{
  RequestLog, null_if_zero, request_log_insert, scheduled_message_sent, request_log_delete,
}
use longclaw.Network.Mti.{match_key, response_mti}
use longclaw.Network.Frame.{frame, read_length_prefixed_message}
use longclaw.Network.Frame.Laws.{read_length_prefixed_message-wrap}
use longclaw.Network.Conn.{
  Conn, PendingFollowUp, handle_message, handle_response, send_follow_up, follow_up_entry,
  follow_up_message, write_next, close, try_queue,
}
use longclaw.Network.Conn.Steps.{Steps, reads, sends, closes, stays, goes}
use longclaw.Network.Conn.Sound.{Steps-IsSound}
use longclaw.Network.Conn.Sound.Queue.{IsSound}
use longclaw.Network.Conn.NoPanic.{handle_message-ne-panic}
use longclaw.Network.Conn.Matching.{handle_response-once}
use longclaw.Network.Conn.FollowUp.{write_next-awaits, send_follow_up-accounts}
use longclaw.Network.Load.{send_logged}
use longclaw.Network.Load.Registered.{send_logged-accounts}
use longclaw.Network.Targets.{queue_steps, node_test_mode_round_robin}
use longclaw.Network.Targets.Rotation.{queue_steps-round}
use longclaw.Tests.Sample.{
  at_nine, sample_text, sample_spec, sample_message, sample_env, sample_conn, sample_request,
}
use longclaw.Tests.Messages.{sample_spec-IsModest}

handle_message-ne-panic_example : handle_message sample_spec at_nine sample_text sample_conn ≢ panic
handle_message-ne-panic_example =
    handle_message-ne-panic sample_spec at_nine sample_text sample_conn (omega arith)
      sample_spec-IsModest

awaited :
    load (codes "0100|000000000001") sample_conn.sent_times
    ≡ some (record { mti = codes "0100"; sent_at = 5 })
unfolding load
awaited = refl

handle_response-once_example :
    let c = handle_response at_nine sample_message (codes "0100|000000000001") sample_conn in
    (handle_response at_nine sample_message (codes "0100|000000000001") c
      ≡ record c { unmatched_count = c.unmatched_count + 1 })
    × ((other : Bytes)
        → bytes_eq (codes "0100|000000000001") other ≡ false
        → load other c.sent_times ≡ load other sample_conn.sent_times)
handle_response-once_example =
    handle_response-once at_nine at_nine sample_message sample_message (codes "0100|000000000001")
      (record { mti = codes "0100"; sent_at = 5 }) sample_conn awaited

write_next-awaits_example :
    (c : Conn) × (key : Bytes) × (write_next 7 true sample_conn ≡ ok c)
    × (match_key {E = ⊥} (codes "0110") (codes "123456789012") ≡ ok key)
    × (load key c.sent_times ≡ some (record { mti = codes "0100"; sent_at = 7 }))
write_next-awaits_example =
    write_next-awaits 7 true sample_conn sample_request [] sample_text (codes "0110") refl refl refl
      (unfold response_mti in refl)

abbrev sample_follow_up : PendingFollowUp
sample_follow_up = record { mti = codes "0420"; raw_message = sample_text; stress_test_id = 1 }

send_follow_up-accounts_example :
    let insert =
      request_log_insert (follow_up_entry sample_conn 3 (codes "9") sample_follow_up) none in
    ((sample_conn.db.done ≡ true)
      × (send_follow_up 3 (codes "9") sample_follow_up sample_conn ≡ sample_conn))
    ⊎ (((length sample_conn.write_channel < 1024)
          × (send_follow_up 3 (codes "9") sample_follow_up sample_conn ≡ record sample_conn {
            write_channel =
                sample_conn.write_channel ++ (follow_up_message (codes "9") sample_follow_up ∷ []);
            db = record sample_conn.db {
              writes =
                  (sample_conn.db.writes ++ (insert ∷ []))
                  ++ (scheduled_message_sent 3 (codes "9") sample_conn.connection_id ∷ []);
            };
          }))
        ⊎ ((1024 ≤ length sample_conn.write_channel)
            × (send_follow_up 3 (codes "9") sample_follow_up sample_conn ≡ record sample_conn {
              dropped_count = sample_conn.dropped_count + 1;
              db = record sample_conn.db {
                writes =
                    (sample_conn.db.writes ++ (insert ∷ []))
                    ++ (request_log_delete
                          (codes "9")
                          sample_conn.connection_id
                          sample_follow_up.mti
                        ∷ []);
              };
            })))
send_follow_up-accounts_example = send_follow_up-accounts 3 (codes "9") sample_follow_up sample_conn

abbrev sample_entry : RequestLog
sample_entry = record {
  stress_test_id = 1;
  request_time = 3;
  reference = codes "000000000002";
  connection_id = codes "10.0.0.1:99";
  mti = codes "0100";
  processing_code = [];
  pan = [];
  amount = [];
  currency = [];
  request_message = sample_text;
  original_log_id = 0;
}

send_logged-accounts_example :
    let insert = request_log_insert sample_entry none in
    ((sample_conn.db.done ≡ true)
      × (send_logged sample_entry sample_conn ≡ record sample_conn {
        follow_ups = delete sample_entry.reference sample_conn.follow_ups;
      }))
    ⊎ (((length sample_conn.write_channel < 1024)
          × (send_logged sample_entry sample_conn ≡ record sample_conn {
            write_channel =
                sample_conn.write_channel
                ++ (record {
                  reference = sample_entry.reference;
                  mti = sample_entry.mti;
                  stress_test_id = sample_entry.stress_test_id;
                  raw_request = sample_entry.request_message;
                }
                    ∷ []);
            db = record sample_conn.db { writes = sample_conn.db.writes ++ (insert ∷ []) };
          }))
        ⊎ ((1024 ≤ length sample_conn.write_channel)
            × (send_logged sample_entry sample_conn ≡ record sample_conn {
              follow_ups = delete sample_entry.reference sample_conn.follow_ups;
              dropped_count = sample_conn.dropped_count + 1;
              db = record sample_conn.db {
                writes =
                    (sample_conn.db.writes ++ (insert ∷ []))
                    ++ (request_log_delete sample_entry.reference sample_conn.connection_id
                          sample_entry.mti
                        ∷ []);
              };
            })))
unfolding null_if_zero
send_logged-accounts_example = send_logged-accounts sample_entry sample_conn

sample_conn-IsSound : IsSound 0 0 sample_conn
sample_conn-IsSound = record { bounded = omega arith; counted = refl }

-- A message that is too short arrives, another is queued, and the connection is closed.
abbrev fuller_conn : Conn
fuller_conn = record sample_conn { write_channel = sample_request ∷ sample_request ∷ [] }

sample-Steps : Steps sample_spec sample_env sample_conn (close fuller_conn)
unfolding handle_message try_queue
sample-Steps =
    goes (goes (goes stays (reads at_nine (codes "0100") refl)) (sends sample_request refl)) closes

Steps-IsSound_example : IsSound 0 0 (close fuller_conn)
Steps-IsSound_example =
    Steps-IsSound sample_spec sample_env sample_conn (close fuller_conn) sample-Steps
      sample_conn-IsSound

abbrev long_text : Bytes
long_text = replicate 65600 0

long_text-length : length long_text ≡ 65600
long_text-length = length-replicate {A = ℕ} 65600 0

read_length_prefixed_message-wrap_example :
    let wrapped = length long_text % 65536 in
    (read_length_prefixed_message (frame long_text)
      ≡ ok (take wrapped long_text, drop wrapped long_text))
    × (65536 ≤ length (drop wrapped long_text))
read_length_prefixed_message-wrap_example =
    read_length_prefixed_message-wrap long_text (omega (arith, long_text-length))

abbrev clients : List ℕ
clients = 7 ∷ 8 ∷ 9 ∷ []

queue_steps-round_example :
    queue_steps node_test_mode_round_robin clients 3 4
    ≡ (drop (4 % 3) clients ++ take (4 % 3) clients, 4 + 3)
queue_steps-round_example = queue_steps-round clients (omega arith) 4
