-- ===== src/Lib.antt =====
-- Longclaw, a load generator and simulated issuer for ISO 8583 card messages over TLS.
--
-- The program is a server to which test clients connect. For each client it keeps a connection: a
-- read loop that parses messages, answers requests as an issuer would and pairs responses with the
-- requests it sent, and a write loop that sends what is queued. A stress test queues messages made
-- from templates and test cards; every request and response is logged to a database by a writer of
-- its own. The files of this library follow the parts of the program:
--
-- Base: booleans, lists, sorting, byte strings, maps, and how a Go call ends: a result, an error, or a
-- panic. Slice and index expressions panic out of range as Go's do.
-- Strconv, Strings: what the program uses of the standard packages strconv, fmt and strings: Atoi
-- with its sign and range, ParseUint, %0wd and %016X, Index, Contains, TrimLeft and TrimRight.
-- Iso.BitSet: iso/bit_set.go, a 64-bit word whose first bit is the highest.
-- Iso.Spec: iso/iso_spec.go, the field definitions; opening and decoding the file are parameters.
-- Iso.Message, Iso.Edit, Iso.Format: iso/iso_messages.go. NewIso8583Message is new_iso8583_message,
-- with one function for each closure and loop body; the cursor and the fields are passed along, and
-- the loops recurse on their number of rounds, 63 and 64. Iso.WellFormed says which messages print.
-- Network.Mti, Network.Field123, Network.Response: network/server/iso_response_handler.go, matchKey of
-- network/server/iso_server.go and responseMTI of network/client/iso_client.go. The random numbers,
-- the clock and the floating-point product are the parameters of Env.
-- Network.Frame: the length prefix of both programs.
-- Network.Conn: IsoConnection of network/server/iso_server.go. One record holds its channels, maps and
-- counters, and each goroutine's loop body is a function on it; Network.Conn.Steps lets them run in any
-- order. TestConnection is in Network.Conn.Probe, its check, its store and its write apart. A panic is
-- the result panic, and a send on a full channel the error wait_chan_full.
-- Network.Client: the loop of network/client/iso_client.go, and a request's way there and back.
-- Network.Targets, Network.Load, Network.Refund: nodeTargets, sendSingleMessage, newRequestLog and
-- sendRefund.
-- Network.Pacing: the loops of RunStress and RunRefund over their ticks. What is due at a tick, a
-- product in floating point, is an argument, and so is how many messages the workers take in time.
-- Network.Clients, Network.Admission, Network.Listener: the connection map of IsoServer, which clients
-- enter it, and the accept loop of StartListen. Which sockets come is an argument.
-- Database: the writes of database/dao.go as values, and the queue and batches of
-- database/batch_writer.go; Database.Batches.Closing has the two selects of enqueue apart,
-- Database.Batches.Overlap lets calls overlap Close, and Database.Batches.Errors has an engine that
-- refuses. Database.Tables says what each statement does to the tables, Database.StressTests, Database.Refunds and Database.Results are the queries, and
-- Database.Schema is database/db_helper.go. Averages and rates are kept as numerator and denominator.
-- Runner: runner/stresstest_runner.go; Runner.Steps lets requests and the runner's loop interleave.
-- Handlers: CreateTest, GetTestResults, SendMessage, GetClients, TestClient, SystemInfo and the routes;
-- the lookups of the machine and floating-point numbers are parameters.
-- Network.Clients.Connections: connections, GetConnectedClients, TestConnection and Stop of IsoServer.
-- Reference: GenerateTimestampID, LoadCards and GetRandomCard of utils/helper.go, and LoadTemplates and
-- RandomTemplate of utils/message_helper.go.
-- Network.Clients.Events: the server as a step relation: clients that connect, connections that take a
-- step or close, the load generator and SendMessage, in any order from NewIsoServer on.
-- Network.Stats: network/server/message_stats.go, with the report between any two messages.
-- Config: internal/config/config.go. Start: main.go, shutdown.go and StartServer of
-- handlers/health_handler.go, with the environment, the files, signals and net/http as arguments.
-- Tests: concrete runs.
--
-- Recursion is structural everywhere. The fuels are that of Strconv.format_padded, which counts up to 20
-- decimal digits, as a 64-bit number has at most; the rounds of the writer's flush, one for each queued
-- write, of which a round takes at least one; and the number of messages that client_loop may read. The
-- loop of RunRefund runs over a list of ticks and says if it would wait for another. Numbers that Go
-- holds in an int are natural numbers where the program only adds to them, with the overflow of the
-- parser's cursor at 2^63 and the wrap-around of the bitmap's word and of the length prefix written out.
--
-- Not modelled: TLS, the JSON of requests and files, the matching of routes, SQLite but for what the
-- statements do, log output, and the pause of two seconds for some card numbers.
-- Outside Database.Batches.Errors a batch is taken to be begun, executed and committed by the engine. In
-- Database, enqueue is one step, as without a Close between its selects. In Start, what the goroutine of
-- StartListen has come to while the cards are loaded is an argument.
pub mod Start
pub mod Config
pub mod Base
pub mod Strconv
pub mod Strings
pub mod Iso
pub mod Network
pub mod Database
pub mod Reference
pub mod Runner
pub mod Handlers
pub mod Tests
