-- ===== src/Tests/Server.antt =====
-- The connection map and the writer at small states.
use longclaw.Base.{
  ◌≡◌, refl, arith, true, false, ok, none, some, List, [], ◌∷◌, ◌++◌, Bytes, codes, err, All,
  update,
}
use longclaw.Database.{WriteOp, db_closed, request_log_delete}
use longclaw.Database.Tables.{Tables}
use longclaw.Database.Batches.{Running, close_writer}
use longclaw.Database.Batches.Flush.{Fits, concat, accepted}
use longclaw.Database.Batches.Overlap.{
  Offer, Moment, rounds, offers, close_during, close_during-accounts,
}
use longclaw.Database.Batches.Closing.{passes, offer, close_writer-offer}
use longclaw.Database.Batches.Refinement.{
  Call, write, round, run_calls, spec_calls, settled, close_writer-refines,
}
use longclaw.Network.Clients.{Server, get_conn, register_conn, close_conn}
use longclaw.Network.Clients.Registry.{close_conn-register_conn}
use longclaw.Tests.Sample.{sample_conn}

-- One client is connected, at address 0.
abbrev sample_server : Server
sample_server = record {
  conn_map = (codes "10.0.0.1:99", 0) ∷ [];
  heap = update (λ k. none) 0 sample_conn;
  fresh = 1;
}

close_conn-register_conn_example :
    (get_conn
        (close_conn
          (codes "10.0.0.1:99")
          0
          (register_conn (codes "10.0.0.1:99") sample_conn sample_server))
        (codes "10.0.0.1:99")
      ≡ some 1)
    × ((other : Bytes)
        → get_conn
            (close_conn
              (codes "10.0.0.1:99")
              0
              (register_conn (codes "10.0.0.1:99") sample_conn sample_server))
            other
          ≡ get_conn (register_conn (codes "10.0.0.1:99") sample_conn sample_server) other)
close_conn-register_conn_example =
    close_conn-register_conn (codes "10.0.0.1:99") 0 sample_conn sample_server (omega arith)

abbrev two_writes : List WriteOp
two_writes =
    request_log_delete (codes "1") (codes "10.0.0.1:99") (codes "0100")
    ∷ request_log_delete (codes "2") (codes "10.0.0.1:99") (codes "0100")
    ∷ []

abbrev sample_tables : Tables
sample_tables = record {
  tests = [];
  log = [];
  scheduled = [];
  next_test = 1;
  next_row = 1;
  next_scheduled = 1;
}

abbrev sample_running : Running
sample_running = record {
  writer = record { writes = two_writes; done = false };
  committed = [];
  tables = sample_tables;
}

abbrev late_write : WriteOp
late_write = request_log_delete (codes "3") (codes "10.0.0.1:99") (codes "0100")

-- A write comes between two rounds of the flush, and another one after the last.
abbrev some_moments : List Moment
some_moments = rounds ∷ offers (record { takes_write = true; op = late_write }) ∷ rounds ∷ []

abbrev late_offers : List Offer
late_offers = record { takes_write = true; op = late_write } ∷ []

close_during-accounts_example :
    let (after, successes, lost) = close_during some_moments late_offers sample_running in
    (concat after.committed ≡ accepted sample_running ++ successes)
    × (after.writer.writes ≡ lost)
    × All Fits after.committed
    × (passes after.writer ≡ false)
close_during-accounts_example = close_during-accounts some_moments late_offers sample_running tt

close_writer-offer_example :
    (passes sample_running.writer ≡ true)
    × (passes (close_writer sample_running).writer ≡ false)
    × (offer false (close_writer sample_running).writer late_write ≡ some (err db_closed))
    × (offer true (close_writer sample_running).writer late_write
        ≡ some (ok (record { writes = late_write ∷ []; done = true })))
    × (concat (close_writer sample_running).committed ≡ accepted sample_running)
close_writer-offer_example = close_writer-offer sample_running late_write refl tt

abbrev sample_calls : List Call
sample_calls =
    write (request_log_delete (codes "3") (codes "10.0.0.1:99") (codes "0100"))
    ∷ round
    ∷ write (request_log_delete (codes "4") (codes "10.0.0.1:99") (codes "0100"))
    ∷ []

close_writer-refines_example :
    (close_writer (run_calls sample_running sample_calls)).tables
    ≡ spec_calls (settled sample_running) sample_calls
close_writer-refines_example = close_writer-refines sample_running sample_calls refl tt
