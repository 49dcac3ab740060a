-- ===== src/Start.antt =====
-- main.go, shutdown.go and `StartServer` of handlers/health_handler.go: how the parts are put together, and how
-- they are stopped. What the machine, the file system and the SQL library give is a parameter.
pub mod Ready
pub mod Shutdown
use longclaw.Base.{
  ℕ, false, Option, none, some, List, [], ◌∷◌, Bytes, codes, bytes_eq, if◌then◌else◌, Go, ok, err,
  panic, ◌>>=◌,
}
use longclaw.Config.{Config, load_config}
use longclaw.Iso.Spec.{IsoSpec, LoadError, load_specs_from_file}
use longclaw.Network.Load.{Card, IsoMsgTemplate}
use longclaw.Network.Clients.{Server}
use longclaw.Network.Clients.Connections.{stop}
use longclaw.Network.Clients.Events.{new_iso_server}
use longclaw.Database.{WriteOp, Writer, DbError, enqueue}
use longclaw.Database.Tables.{Tables}
use longclaw.Database.Schema.{Schema, new_stress_test_db}
use longclaw.Database.Batches.{Running}
use longclaw.Database.Batches.Overlap.{Moment, Offer, close_during}
use longclaw.Reference.Data.{load_cards, load_templates}
use longclaw.Runner.{Runner, new_runner}

-- A database file: its tables' columns and its rows.
pub record DbFile : Type 0 where
  pub schema : Schema
  pub tables : Tables

-- `open_db` is what is at a path, an empty database for a new one, or `none` if it cannot be opened.
pub record World : Type 0 where
  pub lookup_env : Bytes → Option Bytes
  pub join : List Bytes → Bytes
  pub getwd : Option Bytes
  pub open_db : Bytes → Option DbFile
  pub read_templates : Bytes → Option (List IsoMsgTemplate)
  pub read_cards : Bytes → Option (List Card)

-- What `log.Fatal` reports; the program exits with status 1.
pub data Fatal : Type 0 where
  no_working_directory : Fatal
  no_database : Fatal
  no_templates : Fatal
  no_spec : Fatal
  no_cards : Fatal
  not_listening : Fatal

abbrev pub or_fatal {ℓ κ} : {E : Type ℓ} {A : Type κ} → Fatal → Go E A → Go Fatal A
or_fatal why (ok a) = ok a
or_fatal why (err e) = err why
or_fatal why panic = panic

abbrev pub or_none {ℓ} : {A : Type ℓ} → Fatal → Option A → Go Fatal A
or_none why none = err why
or_none why (some a) = ok a

-- What is read before the server is made.
pub record Parts : Type 0 where
  pub base_path : Bytes
  pub config : Config
  pub db_file : DbFile
  pub templates : List IsoMsgTemplate
  pub iso_spec : IsoSpec

-- What serves the requests (`handlers.App`, and what it stands on).
pub record App : Type 0 where
  pub parts : Parts
  pub db : Running
  pub iso_server : Server
  pub stress_runner : Runner
  pub cards : List Card

-- `LONGCLAW_BASE_PATH`, where an empty value is as none, or the working directory.
unfoldable pub find_base_path : World → Go Fatal Bytes
find_base_path w = elim (w.lookup_env (codes "LONGCLAW_BASE_PATH")) [
  | none ↦ or_none no_working_directory w.getwd
  | some path ↦ if bytes_eq path [] then or_none no_working_directory w.getwd else ok path
]

-- `newBatchWriter`
abbrev pub new_batch_writer : Tables → Running
new_batch_writer tables = record {
  writer = record { writes = []; done = false };
  committed = [];
  tables = tables;
}

-- The listener, which runs while the cards are loaded: its error ends the program, as without a
-- certificate; otherwise its server may have clients already.
pub data Listening : Type 0 where
  listen_fails : Listening
  listens : (iso_server : Server) → Listening

abbrev pub listened : Listening → Go Fatal Server
listened listen_fails = err not_listening
listened (listens iso_server) = ok iso_server

module _ {File : Type 0} (open_file : Bytes → Option File)
    (decode : File → IsoSpec → Option IsoSpec) (w : World) where
  -- `main` up to the specification, which is global from then on.
  unfoldable pub load_parts : Go Fatal Parts
  unfolding find_base_path
  load_parts = do
    base_path ← find_base_path w
    let config = load_config w.lookup_env w.join base_path
    file ← or_none no_database (w.open_db config.database.path)
    schema ← or_fatal no_database (new_stress_test_db file.schema)
    templates ←
        or_fatal no_templates (load_templates w.read_templates config.data_files.templates_path)
    iso_spec ← or_fatal no_spec (load_specs_from_file open_file decode config.data_files.spec_path)
    ok (record {
      base_path = base_path;
      config = config;
      db_file = record { schema = schema; tables = file.tables };
      templates = templates;
      iso_spec = iso_spec;
    })

  -- The rest of `main`, up to the call of `serveUntilSignal`, with what the goroutine of `StartListen` has
  -- come to by then.
  unfoldable pub start : Listening → Go Fatal App
  unfolding load_parts
  start listening = do
    parts ← load_parts
    iso_server ← listened listening
    cards ← or_fatal no_cards (load_cards w.read_cards parts.config.data_files.cards_path)
    ok (record {
      parts = parts;
      db = new_batch_writer parts.db_file.tables;
      iso_server = iso_server;
      stress_runner = new_runner;
      cards = cards;
    })

-- How serving ends: `ListenAndServe` fails first, or the context is cancelled and `Shutdown` returns.
pub data Serving : Type 0 where
  fails : (error : Bytes) → Serving
  cancelled : (shutdown_error : Option Bytes) → Serving

-- The error of `StartServer`.
unfoldable pub start_server : Serving → Option Bytes
start_server (fails error) = some error
start_server (cancelled shutdown_error) = shutdown_error

-- The writes that goroutines queue while the server stops.
unfoldable pub queue_all : List WriteOp → Writer → Writer
queue_all [] w = w
queue_all (op ∷ ops) w = elim (enqueue w op) [
  | ok w' ↦ queue_all ops w'
  | err e ↦ queue_all ops w
  | panic ↦ queue_all ops w
]

pub record System : Type 0 where
  pub iso_server : Server
  pub db : Running

-- `order` has the keys of the connection map as Go visits them; `meanwhile` are the writes queued before the
-- database is closed, and `moments` and `late` what overlaps its `Close`. The status is that of the
-- program; an error of closing the database is only logged.
unfoldable pub serve_until_signal :
    Serving
    → (order : List Bytes) (meanwhile : List WriteOp) (moments : List Moment) (late : List Offer)
    → System
    → System × ℕ
unfolding start_server queue_all close_during
serve_until_signal serving order meanwhile moments late s = (
  record {
    iso_server = stop order s.iso_server;
    db = (close_during moments late (record s.db { writer = queue_all meanwhile s.db.writer })).0;
  },
  elim (start_server serving) [ none ↦ 0 | some error ↦ 1 ],
)
