-- ===== src/Network/Frame.antt =====
-- The framing of messages on a socket: two bytes of length, big-endian, and the message
-- (`readLengthPrefixedMessage` of network/server/iso_server.go and network/client/iso_client.go, and the
-- buffers that both write).
pub mod Laws
use longclaw.Base.{
  ℕ, ◌+◌, ◌*◌, ◌/◌, ◌%◌, ◌^◌, List, [], ◌∷◌, ◌++◌, Bytes, length, take, drop, ltb, if◌then◌else◌,
  Go, ok, err,
}

-- `binary.BigEndian.PutUint16(buf, uint16(n))`
unfoldable pub put_uint16 : ℕ → Bytes
put_uint16 n = n % 2 ^ 16 / 256 ∷ n % 256 ∷ []

abbrev pub uint16 : ℕ → ℕ → ℕ
uint16 hi lo = hi * 256 + lo

unfoldable pub frame : Bytes → Bytes
frame message = put_uint16 (length message) ++ message

pub data ReadError : Type 0 where
  no_length : ReadError
  no_message : ReadError

-- `io.ReadFull` of `n` bytes, when the rest of the stream is at hand
unfoldable pub read_body : ℕ → Bytes → Go ReadError (Bytes × Bytes)
read_body n stream =
    if ltb (length stream) n then err no_message else ok (take n stream, drop n stream)

-- The message, and what is left of the stream.
unfoldable pub read_length_prefixed_message : Bytes → Go ReadError (Bytes × Bytes)
unfolding read_body
read_length_prefixed_message (hi ∷ lo ∷ rest) = read_body (uint16 hi lo) rest
read_length_prefixed_message _ = err no_length
