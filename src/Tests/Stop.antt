-- ===== src/Tests/Stop.antt =====
-- A client connects to a server, which is stopped then.
use longclaw.Base.{
  ◌≡◌, ◌⊎◌, refl, true, false, ◌||◌, Option, none, some, [], ◌∷◌, any, Bytes, codes, bytes_eq, ℕ,
  Bool, if◌then◌else◌, inl, inr,
}
use longclaw.Base.Dict.{load, store}
use longclaw.Iso.Spec.{IsoSpec}
use longclaw.Network.Clients.{Server, get_conn, register_conn}
use longclaw.Network.Clients.Connections.{stop}
use longclaw.Network.Clients.Connections.Stopped.{Distinct}
use longclaw.Network.Clients.Connections.Shut.{IsShut}
use longclaw.Network.Clients.Events.{
  Shared, Reachable, new_iso_server, new_conn, connects, starts, later,
}
use longclaw.Network.Clients.Events.Bounded.{AllBounded}
use longclaw.Network.Clients.Events.Entries.{IsValid}
use longclaw.Network.Clients.Events.Invariant.{Reachable-stop}
use longclaw.Network.Clients.Events.Refinement.{ClientStep, Event-ClientStep}
use longclaw.Network.Admission.{Arrival, validate_client, handle_new_connect}
use longclaw.Tests.Sample.{sample_env, sample_spec}

abbrev pub client_addr : Bytes
client_addr = codes "10.0.0.1:99"

abbrev shared : Shared
shared = record {
  db = record { writes = []; done = false };
  sent_count = 0;
  dropped_count = 0;
  unmatched_count = 0;
}

abbrev arrival : Arrival
arrival = record {
  is_tls = true;
  handshake = true;
  roll = 8;
  common_names = codes "photon-client" ∷ [];
}

abbrev pub one_client : Server
one_client =
    (handle_new_connect (codes "photon-client") arrival client_addr (new_conn client_addr shared)
      new_iso_server).0

pub one_client-Reachable :
    (spec : IsoSpec) → Reachable spec sample_env (λ conn. client_addr) one_client
one_client-Reachable spec = later starts (connects (codes "photon-client") arrival shared refl)

pub one_client-visited :
    (id : Bytes)
    → (load id one_client.conn_map ≡ none)
      ⊎ (any (λ other. bytes_eq other id) (client_addr ∷ []) ≡ true)
unfolding load store register_conn handle_new_connect validate_client
one_client-visited id = by_name (bytes_eq client_addr id)
  where
    by_name :
        (b : Bool) → (if◌then◌else◌ {A = Option ℕ} b (some 0) none ≡ none) ⊎ ((b || false) ≡ true)
    by_name true = inr refl
    by_name false = inl refl

Reachable-stop_example :
    IsValid (λ conn. client_addr) one_client
    × Distinct one_client
    × AllBounded one_client
    × ((id : Bytes) (conn : ℕ)
        → load id one_client.conn_map ≡ some conn
        → IsShut (stop (client_addr ∷ []) one_client) conn)
    × ((id : Bytes) → get_conn (stop (client_addr ∷ []) one_client) id ≡ none)
Reachable-stop_example =
    Reachable-stop (λ conn. client_addr) sample_spec sample_env one_client
      (one_client-Reachable sample_spec) (client_addr ∷ []) one_client-visited

Event-ClientStep_example :
    ClientStep {spec = sample_spec} {env = sample_env} {remote_addr = λ conn. client_addr}
      {s = new_iso_server} {t = one_client}
      (connects (codes "photon-client") arrival shared refl)
Event-ClientStep_example =
    Event-ClientStep sample_spec sample_env (λ conn. client_addr) new_iso_server one_client
      (connects (codes "photon-client") arrival shared refl)
