-- ===== src/Tests/Starting.antt =====
-- The program is started in an empty directory with one card, and stopped.
use longclaw.Base.{
  false, ◌≡◌, ◌⊎◌, inl, refl, Option, none, some, List, [], ◌∷◌, ◌++◌, Bytes, codes, All, ℕ,
}
use longclaw.Base.Dict.{load}
use longclaw.Config.{load_config}
use longclaw.Config.Variables.{variables, Overrides, load_config-Overrides}
use longclaw.Iso.Spec.{IsoSpec}
use longclaw.Network.Load.{Card}
use longclaw.Network.Clients.{get_conn}
use longclaw.Network.Clients.Connections.Shut.{IsShut}
use longclaw.Database.{WriteOp, request_log_delete}
use longclaw.Database.Tables.{Tables}
use longclaw.Database.Schema.Start.{IsOld}
use longclaw.Database.Batches.Closing.{passes}
use longclaw.Database.Batches.Overlap.{Moment, rounds, close_during}
use longclaw.Database.Batches.Flush.{concat, accepted}
use longclaw.Start.{
  World, DbFile, find_base_path, Serving, fails, start_server, System, queue_all,
  serve_until_signal, new_batch_writer,
}
use longclaw.Start.Ready.{CanStart}
use longclaw.Start.Shutdown.{serve_until_signal-accounts}
use longclaw.Tests.Sample.{sample_spec, sample_env}
use longclaw.Tests.Stop.{client_addr, one_client, one_client-Reachable, one_client-visited}

abbrev no_variable : Bytes → Option Bytes
no_variable key = none

abbrev join : List Bytes → Bytes
join [] = []
join (part ∷ parts) = part ++ (codes "/" ++ join parts)

load_config-Overrides_example :
    All (Overrides no_variable join (codes "/srv") (codes ":9090")) variables
load_config-Overrides_example =
    load_config-Overrides no_variable join (codes "/srv") (codes ":9090")

abbrev no_rows : Tables
no_rows = record {
  tests = [];
  log = [];
  scheduled = [];
  next_test = 1;
  next_row = 1;
  next_scheduled = 1;
}

abbrev new_file : DbFile
new_file = record { schema = []; tables = no_rows }

abbrev one_card : Card
one_card = record {
  card_number = codes "4111111111111115";
  cvv2 = codes "123";
  track2_data = [];
  expiry_date = codes "3012";
}

abbrev empty_directory : World
empty_directory = record {
  lookup_env = no_variable;
  join = join;
  getwd = some (codes "/srv");
  open_db = λ path. some new_file;
  read_templates = λ path. some [];
  read_cards = λ path. some (one_card ∷ []);
}

abbrev open_file : Bytes → Option Bytes
open_file path = some path

abbrev decode : Bytes → IsoSpec → Option IsoSpec
decode file known = some sample_spec

new_file-IsOld : IsOld []
unfolding load
new_file-IsOld = (inl refl, inl refl, inl refl)

abbrev can_start : CanStart open_file decode empty_directory
can_start = record {
  base_path = codes "/srv";
  based = (unfold find_base_path in refl);
  file = new_file;
  opened = refl;
  old = new_file-IsOld;
  templates = [];
  has_templates = refl;
  spec_file = (load_config no_variable join (codes "/srv")).data_files.spec_path;
  has_spec = refl;
  decoded = sample_spec;
  is_spec = refl;
  card = one_card;
  more_cards = [];
  has_cards = refl;
}

abbrev running : System
running = record { iso_server = one_client; db = new_batch_writer no_rows }

abbrev late_write : List WriteOp
late_write = request_log_delete (codes "3") client_addr (codes "0100") ∷ []

-- The port is in use.
abbrev port_taken : Serving
port_taken = fails (codes "address already in use")

abbrev moments : List Moment
moments = rounds ∷ []

serve_until_signal-accounts_example :
    let (after, status) =
      serve_until_signal port_taken (client_addr ∷ []) late_write moments [] running in
    let queued = record running.db { writer = queue_all late_write running.db.writer } in
    let (_, successes, lost) = close_during moments [] queued in
    ((id : Bytes) (conn : ℕ)
      → load id one_client.conn_map ≡ some conn
      → IsShut after.iso_server conn)
    × ((id : Bytes) → get_conn after.iso_server id ≡ none)
    × (concat after.db.committed ≡ (accepted running.db ++ late_write) ++ successes)
    × (after.db.writer.writes ≡ lost)
    × (passes after.db.writer ≡ false)
    × (((start_server port_taken ≡ none) × (status ≡ 0))
        ⊎ ((error : Bytes) × (start_server port_taken ≡ some error) × (status ≡ 1)))
serve_until_signal-accounts_example =
    serve_until_signal-accounts sample_spec sample_env (λ conn. client_addr) port_taken
      (client_addr ∷ []) late_write moments [] running (one_client-Reachable sample_spec)
      one_client-visited refl tt
