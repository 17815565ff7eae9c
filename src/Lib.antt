-- ===== src/Lib.antt =====
-- Verification of the Stripe webhook service.
--
-- The program has three processes over one Postgres database and one Kafka topic. The API
-- (cmd/api) takes Stripe's webhooks and stores each event in the ledger and in the outbox, in one
-- transaction. The publisher (cmd/publisher) sends the rows of the outbox to Kafka. The worker
-- (cmd/worker) takes the jobs from Kafka, claims the completion of each event for its consumer,
-- delivers the job downstream over HTTP and marks the completion. internal/store is the database
-- layer of all three, internal/engine the job that they hand on.
--
-- Files:
--   Base, Base/*: names of the library, equality and order tests, lists.
--   Go: `error`, `(value, error)`, `[]byte`, `JobError`. Monad: state passing with errors,
--     `defer`.
--   Log: the entries that the code writes to log/slog.
--   Sql, Sql/Laws: what the SQL text asks of a table with a unique key, and its laws.
--   Pipeline: the API and the publisher one after the other. Pipeline/Consumed: the worker
--     after them. Pipeline/Calm: lemmas on a database that nobody else uses.
--   System: the three processes over one database, in any order and among others of their
--     kind. Store/Reach: the steps that they commit. Store/Invariant: what those keep.
--     Store/Machine, Follows: the tables as state machines. Worker/Changes, Worker/Loop/Changes,
--     Publisher/Changes, Api/Changes, Api/Serves: that each process takes only such steps.
--   Start: the main functions up to where they begin their work, and the life of the API's
--     server. Start/Laws: how they end. Store/Open: `NewPostgres`.
--   Text, Text/Laws: `strings.TrimSpace` and `strings.Split`.
--   Config: internal/config (`Load`, `LoadWorker`, `LoadPublisher`, `splitCSV`,
--     `validateDownstreamURL`). Config/Csv, Steps, Loads: its properties.
--   Engine: internal/engine (`JobFromStripeEvent`, `ParseStripeEvent`).
--   Store/Schema: the constants and result types of internal/store/store.go and the tables of
--     migrations/. Store/Statements: each SQL statement of internal/store/postgres.go.
--     Store/Driver: database/sql. Store/Postgres: the methods of `Postgres`, one function each
--     (`AcceptEvent` is `accept_event`, and so on). Store/Interface: the interface `Store` of
--     store.go.
--   Api/LogMsg, Worker/LogMsg, Publisher/LogMsg: the message names of the three files
--     logmsg.go.
--   Store/Rely, Guarantee, Valid, Evolves, Sound: relations of the tables before and after a
--     method, whatever the other clients do. Store/Accept, Accepted, Fresh, Recorded: the
--     transaction of `AcceptEvent`. Store/Process: that of `ProcessEvent`. Store/Reads: the
--     methods that only read. Store/Once: marks of a processed completion. Store/Ordered: the
--     outbox in the order of its ids. Store/Yields, Counts: what a claim answers.
--     Store/Lifecycle: completions as a state machine. Store/Stages, Marked, Claimed, Outbox,
--     Rows, Distinct: lemmas on single methods.
--   Worker/JobErrors, Downstream, Record, Partition, Loop: cmd/worker/job_error.go,
--     downstream.go, main.go and handle_job.go, partition.go, and the loop of main.go.
--     Worker/Settles, Duplicates, Attempt, Retries, Partition/Laws, Downstream/Laws,
--     Loop/Batches, Loop/Stops: their properties. Worker/Postgres: the worker's store.
--     Worker/Calm: lemmas on a database that nobody else uses.
--   Publisher: cmd/publisher/main.go and produce.go. Publisher/Outbox: the publisher's store.
--     Publisher/Laws, Delivered, Pending, Calls, Drains, Patience: their properties.
--   Api: `handleStripeWebhook` of cmd/api/handlers.go. Api/Http: `responseRecorder`.
--     Api/Middleware: cmd/api/logging.go, requestlog.go and recover.go. Api/Routes: the probes,
--     the routes of cmd/api/app.go, and the server's handler of cmd/api/main.go. Api/Accepts,
--     Rejects, Recorder, Told, Final, Access, Guards: their properties.
--   Tests/*: runs at concrete inputs.
--
-- How it is modelled. A method of the store acts on a session: the committed tables, the copy of an
-- open transaction, and a script that says for each call what the other clients of the database
-- committed before it and whether it is done, is refused, or does its work but loses its answer.
-- Theorems on all sessions thus speak of all interleavings of single calls and of all failures of
-- them. A transaction works on a copy of the tables that Commit installs, and no other client acts
-- while it is open. What the other clients may do is a hypothesis where a theorem needs it (`Rely`).
--
-- Parameters, since their code is not here: encoding/json, net/http, net/url, the parser of
-- durations, godotenv and the environment, google/uuid, the clock, the dump of the stack, the Kafka
-- client, the cast to jsonb. How `http.ServeMux` matches the three patterns of
-- `routes` is written out for paths in canonical form. A theorem that relies on one of them names
-- what it relies on.
--
-- Bounds. Ids of the outbox sequence and times are unbounded; now() answers a field of the tables.
-- `attempt_count` is an INT, and a statement that would raise it above 2147483647 fails. The loops
-- of the publisher and of the worker run over the list of their rounds, so that no fuel is used;
-- only how often Kafka gives a record again (Worker/Retries) is fuel, of which one more than the
-- deliveries that fail is enough.
--
-- Texts are sequences of code points, as those of valid UTF-8.
--
-- Not modelled: logger construction, the delivery of signals and the timers, debugging hooks, and
-- deployment. `Shutdown` is one step of the API's process. The columns `failed_at` and
-- `error_message`, which no statement names, are left out. `ProcessEvent` and `TruncateLedger` are
-- modelled, but as no process calls them they are no steps of Store/Reach.
pub mod Base
pub mod Sql
pub mod Go
pub mod Monad
pub mod Log
pub mod Text
pub mod Config
pub mod Engine
pub mod Store
pub mod Worker
pub mod Publisher
pub mod Api
pub mod Pipeline
pub mod System
pub mod Start
mod Tests
