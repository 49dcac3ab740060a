-- ===== src/Tests/Figures.antt =====
-- The counters of messages with a report between two of them, and a connection test of the sample connection.
use longclaw.Base.{false, ◌≡◌, ◌+◌, refl, true, [], ◌∷◌, ◌++◌, Bytes, codes, List, ok, err}
use longclaw.Network.Stats.{
  Counter, sent_count, dropped_count, Stats, Act, counts, reports, act_all,
}
use longclaw.Network.Stats.Kept.{NoneEmpty, total, counted_of, act_all-keeps}
use longclaw.Network.Frame.{frame}
use longclaw.Network.Conn.{Conn, handle_message}
use longclaw.Network.Conn.Probe.{
  test_in_progress, write_failed, echo_request, check_idle, begin_test, write_test, finish_test,
}
use longclaw.Network.Client.{client_loop}
use longclaw.Network.Client.Echo.{write_test-finish_test}
use longclaw.Tests.Sample.{sample_spec, sample_conn, at_nine}

abbrev some_stats : Stats
some_stats = record { value = λ counter. 3; logged = [] }

abbrev some_acts : List Act
some_acts =
    counts sent_count
    ∷ reports sent_count
    ∷ counts sent_count
    ∷ counts dropped_count
    ∷ reports dropped_count
    ∷ []

act_all-keeps_example :
    ((counter : Counter)
      → total counter (act_all some_acts some_stats)
        ≡ total counter some_stats + counted_of counter some_acts)
    × NoneEmpty (act_all some_acts some_stats).logged
act_all-keeps_example = act_all-keeps some_acts some_stats tt

abbrev first_time : Bytes
first_time = codes "0102150405"

write_test-finish_test_example :
    let begun = begin_test first_time sample_conn in
    let (waits, sent) = write_test first_time true begun in
    (check_idle sample_conn ≡ ok tt)
    × (check_idle begun ≡ err test_in_progress)
    × (sent ≡ ok tt)
    × (waits.socket ≡ sample_conn.socket ++ (frame (echo_request first_time) ∷ []))
    × (answer : Bytes) × (answered : Conn) × (client_loop 1 (frame (echo_request first_time))
        ≡ frame answer ∷ [])
    × (handle_message sample_spec at_nine answer waits ≡ ok answered)
    × ((finish_test first_time answered).1 ≡ ok true)
    × (check_idle (finish_test first_time answered).0 ≡ ok tt)
    × (write_test first_time false begun ≡ (sample_conn, err write_failed))
write_test-finish_test_example =
    write_test-finish_test sample_spec at_nine first_time sample_conn refl refl
