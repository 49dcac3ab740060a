-- ===== src/Network/Listener.antt =====
-- `StartListen` of network/server/iso_server.go: the accept loop. Reading the certificates and listening are the
-- TLS library's and come as arguments, as does what `Accept` returns. Each socket goes to a goroutine of
-- `HandleNewConnect` (Network.Admission), which runs while the loop goes on: the loop gives the sockets
-- that it has handed over, and what the goroutines do are events of the server.
use longclaw.Base.{Option, none, some, List, [], ◌∷◌, Bytes, Go, ok, err}

pub data ListenError : Type 0 where
  bad_key_pair : Bytes → ListenError
  bad_ca : Bytes → ListenError
  not_listening : Bytes → ListenError
  accept_failed : Bytes → ListenError

-- The errors of reading the server's certificate and that of the authority, and of listening.
pub record Setup : Type 0 where
  pub key_pair_error : Option Bytes
  pub ca_error : Option Bytes
  pub listen_error : Option Bytes

-- What `Accept` returns: a socket, the error of a listener that `Stop` has closed, or another one.
pub data Accept {ℓ} (Socket : Type ℓ) : Type ℓ where
  accepted : Socket → Accept Socket
  listener_closed : Accept Socket
  accept_error : Bytes → Accept Socket

abbrev pub Listened {ℓ} : Type ℓ → Type ℓ
Listened Socket = List Socket × Option (Go ListenError (Unit {0}))

module _ {ℓ} {Socket : Type ℓ} where
  -- The sockets that are handed over, and what the loop returns, if it has come to an end.
  unfoldable pub accept_loop : List (Accept Socket) → Listened Socket
  accept_loop [] = ([], none)
  accept_loop (accepted socket ∷ rest) =
      let (handed, result) = accept_loop rest in (socket ∷ handed, result)
  accept_loop (listener_closed ∷ rest) = ([], some (ok tt))
  accept_loop (accept_error e ∷ rest) = ([], some (err (accept_failed e)))

  unfoldable pub start_listen : Setup → List (Accept Socket) → Listened Socket
  unfolding accept_loop
  start_listen setup accepts = elim setup.key_pair_error [
    | some e ↦ ([], some (err (bad_key_pair e)))
    | none ↦ elim setup.ca_error [
      | some e ↦ ([], some (err (bad_ca e)))
      | none ↦ elim setup.listen_error [
        | some e ↦ ([], some (err (not_listening e)))
        | none ↦ accept_loop accepts
      ]
    ]
  ]
