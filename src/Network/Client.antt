-- ===== src/Network/Client.antt =====
-- The loop of network/client/iso_client.go: the test client replies to each request that it reads. The replies are
-- in the order of the requests, as equal delays give it.
pub mod Retyped
pub mod Exchange
pub mod Echo
pub mod Settings
use longclaw.Base.{
  ℕ, zero, suc, Option, none, some, List, [], ◌∷◌, ◌++◌, Bytes, drop, Go, ok, err, panic,
}
use longclaw.Network.Mti.{response_mti}
use longclaw.Network.Frame.{frame, read_length_prefixed_message}

-- `copy(message, respMTI)`
unfoldable pub reply : Bytes → Option Bytes
unfolding response_mti
reply message = elim (response_mti message) [
  | none ↦ none
  | some mti ↦ some (mti ++ drop 4 message)
]

-- What is written for a message, with its length.
abbrev pub written_for : Option Bytes → List Bytes
written_for none = []
written_for (some message) = frame message ∷ []

-- The loop, for a stream with so many messages at most, until it cannot be read.
unfoldable pub client_loop : ℕ → Bytes → List Bytes
unfolding reply read_length_prefixed_message
client_loop zero stream = []
client_loop (suc messages) stream = elim (read_length_prefixed_message stream) [
  | ok (message, rest) ↦ written_for (reply message) ++ client_loop messages rest
  | err e ↦ []
  | panic ↦ []
]
