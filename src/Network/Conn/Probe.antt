-- ===== src/Network/Conn/Probe.antt =====
-- `TestConnection` of network/server/iso_server.go: an echo request is written to the socket, and the read
-- loop routes the answer to the test that waits for it.
use longclaw.Base.{
  ◌||◌, Bool, true, false, Option, none, some, List, [], ◌∷◌, ◌++◌, Bytes, codes, bytes_eq, take,
  if◌then◌else◌, Go, ok, err,
}
use longclaw.Base.Dict.{load, store, delete}
use longclaw.Network.Frame.{frame}
use longclaw.Network.Conn.{Conn}

pub data ProbeError : Type 0 where
  test_in_progress : ProbeError
  write_failed : ProbeError
  timeout : Bytes → ProbeError

-- The fixed part of the echo request, the time as `0102150405`, and the rest.
unfoldable pub echo_request : Bytes → Bytes
echo_request format_string =
    codes "080082200000000000000400000000000000" ++ (format_string ++ codes "026612361")

abbrev pub is_idle : List (Bytes × Option Bytes) → Bool
is_idle [] = true
is_idle (t ∷ ts) = false

-- The first step of a test: no other one may be there. Until the next step, another call can pass it too.
unfoldable pub check_idle : Conn → Go ProbeError (Unit {0})
check_idle c = if is_idle c.conn_tests then ok tt else err test_in_progress

-- The second step: the channel of the test, under the time.
unfoldable pub begin_test : (format_string : Bytes) → Conn → Conn
begin_test format_string c = record c { conn_tests = store format_string none c.conn_tests }

-- The third step: the echo request. A failed write ends the test, and its entry is deleted.
unfoldable pub write_test :
    (format_string : Bytes) → (written : Bool) → Conn → Conn × Go ProbeError (Unit {0})
unfolding echo_request
write_test format_string true c =
    (record c { socket = c.socket ++ (frame (echo_request format_string) ∷ []) }, ok tt)
write_test format_string false c =
    (record c { conn_tests = delete format_string c.conn_tests }, err write_failed)

unfoldable pub is_echo : Bytes → Bool
is_echo str = bytes_eq (take 4 str) (codes "0810") || bytes_eq (take 4 str) (codes "0800")

-- What is in the channel when the test wakes up: its answer, or nothing, which is a timeout. Its entry is
-- deleted in both cases. Its channel is taken to be the stored one: a test that passed the check at the same
-- time, in the same second, would have replaced it.
unfoldable pub finish_test : (format_string : Bytes) → Conn → Conn × Go ProbeError Bool
unfolding is_echo
finish_test format_string c = (
  record c { conn_tests = delete format_string c.conn_tests },
  elim (load format_string c.conn_tests) [
    | some (some str) ↦ ok (is_echo str)
    | some none ↦ err (timeout format_string)
    | none ↦ err (timeout format_string)
  ],
)
