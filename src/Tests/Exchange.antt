-- ===== src/Tests/Exchange.antt =====
-- The sample message, sent to the test client and answered.
use longclaw.Base.{◌≡◌, refl, arith, false, true, [], ◌∷◌, Bytes, bytes_eq, take, ok}
use longclaw.Base.Dict.{delete}
use longclaw.Iso.Edit.{get_field}
use longclaw.Iso.RoundTrip.{text}
use longclaw.Network.Mti.{one_of}
use longclaw.Network.Frame.{frame}
use longclaw.Network.Conn.{Conn, Queued, handle_message, match_response, write_next}
use longclaw.Network.Client.{client_loop}
use longclaw.Network.Client.Exchange.{write_next-answered}
use longclaw.Network.Client.Retyped.{financial_mti_set}
use longclaw.Tests.Sample.{at_nine, sample_message, sample_conn}
use longclaw.Tests.Messages.{sample-IsWellFormed, printed_length}

abbrev sample_queued : Queued
sample_queued = record {
  reference = get_field sample_message 36;
  mti = take 4 (text sample_message);
  stress_test_id = 1;
  raw_request = text sample_message;
}

abbrev queued_conn : Conn
queued_conn = record sample_conn { write_channel = sample_queued ∷ [] }

is_tracked : bytes_eq sample_queued.reference [] ≡ false
unfolding get_field sample_message
is_tracked = refl

is_financial : one_of (take 4 (text sample_message)) financial_mti_set ≡ true
unfolding sample_message
is_financial = refl

write_next-answered_example :
    (c' : Conn) × (answer : Bytes) × (key : Bytes) × (write_next 7 true queued_conn ≡ ok c')
    × (client_loop 1 (frame sample_queued.raw_request) ≡ frame answer ∷ [])
    × (handle_message sample_message.iso_spec at_nine answer c'
        ≡ ok (
            match_response at_nine
              (record sample_message { message = answer })
              sample_queued.reference
              (record { mti = sample_queued.mti; sent_at = 7 })
              (record c' { sent_times = delete key c'.sent_times })))
write_next-answered_example =
    write_next-answered at_nine 7 sample_message queued_conn sample_queued [] sample-IsWellFormed
      is_financial (omega (arith, printed_length)) (omega (arith, printed_length)) refl is_tracked
      refl
