-- ===== src/Network/Conn/Steps.antt =====
-- The goroutines of a connection as steps in any order, and what every order keeps.
use longclaw.Base.{ℕ, ◌≡◌, Bool, some, List, ◌∷◌, ◌++◌, Bytes, ok}
use longclaw.Iso.Spec.{IsoSpec}
use longclaw.Iso.Message.{Message}
use longclaw.Network.Response.{Env}
use longclaw.Network.Conn.{
  Times, Conn, Queued, try_queue, handle_message, respond, close, write_next,
}

-- A message arrives, a request is answered, a message is written or fails to be, a sender queues a
-- message, and the connection is closed.
pub data Step (spec : IsoSpec) (env : Env) : Conn → Conn → Type 0 where
  reads :
      {c c' : Conn} (times : Times) (msg : Bytes)
      → handle_message spec times msg c ≡ ok c'
      → Step spec env c c'
  responds :
      {c c' : Conn} (before after : List Message) (request : Message)
      → c.responding ≡ before ++ (request ∷ after)
      → respond env request (record c { responding = before ++ after }) ≡ ok c'
      → Step spec env c c'
  writes :
      {c c' : Conn} (now : ℕ) (written : Bool)
      → write_next now written c ≡ ok c'
      → Step spec env c c'
  sends : {c c' : Conn} (q : Queued) → try_queue q c ≡ some c' → Step spec env c c'
  closes : {c : Conn} → Step spec env c (close c)

pub data Steps (spec : IsoSpec) (env : Env) : Conn → Conn → Type 0 where
  stays : {c : Conn} → Steps spec env c c
  goes : {c c' c'' : Conn} → Steps spec env c c' → Step spec env c' c'' → Steps spec env c c''
