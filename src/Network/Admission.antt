-- ===== src/Network/Admission.antt =====
-- `HandleNewConnect` and `validateClient` of network/server/iso_server.go: which clients are connected. The
-- handshake and the certificates are the TLS library's and come as arguments.
pub mod Checked
use longclaw.Base.{
  ℕ, Bool, true, false, not, List, [], ◌∷◌, Bytes, bytes_eq, ltb, if◌then◌else◌, Go, ok, err, panic,
}
use longclaw.Network.Conn.{Conn}
use longclaw.Network.Clients.{Server, register_conn}

pub data CertError : Type 0 where
  no_client_certificate : CertError
  invalid_common_name : Bytes → CertError

-- The common names of the peer's certificates, the client's own first.
unfoldable pub validate_client : List Bytes → Bytes → Go CertError (Unit {0})
validate_client [] expected_cn = err no_client_certificate
validate_client (common_name ∷ chain) expected_cn =
    if bytes_eq common_name expected_cn then ok tt else err (invalid_common_name common_name)

-- What is known of an accepted socket: whether it is one of TLS, whether the handshake succeeds, the
-- certificates, and the random number between 0 and 99.
pub record Arrival : Type 0 where
  pub is_tls : Bool
  pub handshake : Bool
  pub roll : ℕ
  pub common_names : List Bytes

-- The server, and whether the socket is kept; else it is closed.
unfoldable pub handle_new_connect : Bytes → Arrival → Bytes → Conn → Server → Server × Bool
unfolding validate_client
handle_new_connect expected_cn arrival client_id conn server =
    if not arrival.is_tls
    then (server, false)
    else if not arrival.handshake
    then (server, false)
    else if ltb arrival.roll 8
    then (server, false)
    else elim (validate_client arrival.common_names expected_cn) [
      | ok u ↦ (register_conn client_id conn server, true)
      | err e ↦ (server, false)
      | panic ↦ (server, false)
    ]
