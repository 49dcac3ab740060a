-- ===== src/Network/Frame/Laws.antt =====
-- A message that fits the length prefix is read back, and a longer one is not.
use longclaw.Base.{
  ◌/◌, ◌%◌, ◌<◌, ◌≤◌, ◌≡◌, ltb, false, take, drop, length-drop, arith, ◌++◌, Bytes, length,
  take-append, drop-append, length-append, ge→ltb, ok,
}
use longclaw.Network.Frame.{frame, put_uint16, uint16, read_body, read_length_prefixed_message}

read_body-append :
    (message rest : Bytes) → read_body (length message) (message ++ rest) ≡ ok (message, rest)
unfolding read_body
read_body-append message rest = rw (
  ge→ltb (length (message ++ rest)) (length message)
      (rw (length-append message rest) (omega arith)),
  take-append message rest,
  drop-append message rest,
)

-- A message of fewer than 65536 bytes is read back from its frame, and the rest of the stream is left.
pub read_length_prefixed_message-frame :
    (message rest : Bytes)
    → length message < 65536
    → read_length_prefixed_message (frame message ++ rest) ≡ ok (message, rest)
read_length_prefixed_message-frame message rest h =
    let e : uint16 (length message % 65536 / 256) (length message % 256) ≡ length message =
      omega arith in
    unfold frame put_uint16 read_length_prefixed_message in rw e (read_body-append message rest)

-- The length of a longer message wraps: its frame is read as its first `n % 65536` bytes, whatever its
-- length `n`, and all its other bytes are left in the stream, where the next frame is looked for.
pub read_length_prefixed_message-wrap :
    (message : Bytes)
    → 65536 ≤ length message
    → let wrapped = length message % 65536 in
      (read_length_prefixed_message (frame message)
        ≡ ok (take wrapped message, drop wrapped message))
      × (65536 ≤ length (drop wrapped message))
read_length_prefixed_message-wrap message h =
    let wrapped = length message % 65536 in
    let e : uint16 (wrapped / 256) (length message % 256) ≡ wrapped = omega arith in
    let short : ltb (length message) wrapped ≡ false = ge→ltb _ _ (omega arith) in
    (
      (unfold frame put_uint16 read_length_prefixed_message read_body in rw (e, short)),
      (let left = length-drop wrapped message in omega (arith, left)),
    )
