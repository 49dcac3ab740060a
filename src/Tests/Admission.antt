-- ===== src/Tests/Admission.antt =====
-- A client with the expected certificate, at an empty server.
use longclaw.Base.{true, none, [], ◌∷◌, codes}
use longclaw.Network.Clients.{Server}
use longclaw.Network.Admission.{Arrival}

abbrev sample_arrival : Arrival
sample_arrival = record {
  is_tls = true;
  handshake = true;
  roll = 50;
  common_names = codes "client" ∷ [];
}

abbrev empty_server : Server
empty_server = record { conn_map = []; heap = λ k. none; fresh = 0 }
