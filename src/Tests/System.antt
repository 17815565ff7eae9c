-- ===== src/Tests/System.antt =====
-- A webhook, a run of the publisher and a run of the worker, with a clock that runs.
use go_stripe_webhook_k8s.Base.{Option, true, ℕ, ◌+◌, ◌≡◌, refl, false, none, List, [], ◌∷◌, arith}
use go_stripe_webhook_k8s.Go.{ok}
use go_stripe_webhook_k8s.Store.Schema.{Db}
use go_stripe_webhook_k8s.Store.Driver.{Session, done}
use go_stripe_webhook_k8s.Store.Rely.{Left}
use go_stripe_webhook_k8s.Store.Valid.{IsValid}
use go_stripe_webhook_k8s.Store.Evolves.{Evolves}
use go_stripe_webhook_k8s.Store.Accept.{accepted}
use go_stripe_webhook_k8s.Store.Statements.{ledger_row}
use go_stripe_webhook_k8s.Store.Reach.{Reach, here, later, accept, tick}
use go_stripe_webhook_k8s.Store.Invariant.{Reach-IsValid}
use go_stripe_webhook_k8s.Store.Follows.{Follows, Reach-Follows}
use go_stripe_webhook_k8s.Sql
use go_stripe_webhook_k8s.Worker.Record.{handle_record}
use go_stripe_webhook_k8s.Worker.Postgres
use go_stripe_webhook_k8s.Worker.Loop.{KafkaClient, Loop, Poll, run_worker}
use go_stripe_webhook_k8s.Worker.Loop.Stops.{HasStopped, run_worker-stops}
use go_stripe_webhook_k8s.Publisher.{ProducerRecord, run_publisher}
use go_stripe_webhook_k8s.Publisher.Outbox
use go_stripe_webhook_k8s.System.{
  Outside, Runs, start, next, api, request, worker, publisher, Runs-Reach,
}
use go_stripe_webhook_k8s.Tests.Data.{empty_db, empty_db-Sound, counter, read_invoice, message_1}
use go_stripe_webhook_k8s.Tests.Api.{cast, signed, encode}
use go_stripe_webhook_k8s.Tests.Http.{only_status, ambient, post}
use go_stripe_webhook_k8s.Tests.Publisher.{broker}

-- A client that commits nothing.
abbrev client : KafkaClient ℕ
client = record { commit_records = λ recs k. (ok tt, k + 1); allow_rebalance = λ k. k }

abbrev outside : Outside ℕ ℕ (List ProducerRecord) (Option ℕ)
outside = record {
  jsonb = cast;
  construct_event = signed;
  marshal = encode;
  cfg = record { port = "8080"; stripe_webhook_secret = "whsec"; database_url = "postgres://db" };
  logger = [];
  writer = only_status;
  downstream = counter;
  unmarshal = read_invoice;
  consumer = "billing";
  client = client;
  producer = broker;
  topic = "jobs";
}

abbrev poll : Poll
poll = record {
  errors = [];
  partitions =
      record { topic = "jobs"; partition = 0; error = none; records = message_1 ∷ [] } ∷ [];
  cancelled = false;
  cancelled_after = false;
}

abbrev first : Session
first = record {
  db = empty_db;
  tx = none;
  script = λ n. record { interfere = λ db. record db { now = db.now + 1 }; reply = done };
  used = 0;
}

abbrev second : Session
second = (api outside ambient post (record { writer = none; store = first; log = [] })).1.store

abbrev third : Session
third =
    (run_publisher broker Outbox.postgres "jobs" (false ∷ [])
      (record { store = second; kafka = []; log = [] })).store

abbrev fourth : Session
fourth =
    (run_worker client (handle_record Postgres.postgres counter read_invoice "billing") (poll ∷ [])
      (record { env = record { store = third; net = 0; log = [] }; kafka = 0 })).env.store

three-Runs : Runs outside first fourth
three-Runs =
    next (next (next start (request ambient post none [] refl)) (publisher (false ∷ []) [] [] refl))
      (worker (poll ∷ []) 0 0 [] refl)

clock-Reach : (n : ℕ) (db : Db) → Reach db ((first.script n).interfere db)
clock-Reach n db = later here (tick (db.now + 1) (omega arith) refl)

Runs-Reach_example : Left Reach first fourth × IsValid fourth.db × Evolves first.db fourth.db
Runs-Reach_example = Runs-Reach outside three-Runs refl empty_db-Sound.valid clock-Reach

abbrev one_accepted : Db
one_accepted = accepted "evt_1" "invoice.paid" (123 ∷ 125 ∷ []) empty_db

absent : ledger_row "evt_1" empty_db ≡ none
unfolding Sql.row_of
absent = refl

Reach-IsValid_example : IsValid one_accepted × Evolves empty_db one_accepted
Reach-IsValid_example =
    Reach-IsValid (later here (accept "evt_1" "invoice.paid" (123 ∷ 125 ∷ []) absent refl))
      empty_db-Sound.valid

-- The context is cancelled while this poll waits.
abbrev last_poll : Poll
last_poll = record { errors = []; partitions = []; cancelled = true; cancelled_after = true }

abbrev job_loop : Loop Session ℕ ℕ
job_loop = record { env = record { store = third; net = 0; log = [] }; kafka = 0 }

run_worker-stops_example :
    let handle = handle_record Postgres.postgres counter read_invoice "billing" in
    HasStopped client handle
      (poll ∷ last_poll ∷ poll ∷ [])
      job_loop
      (run_worker client handle (poll ∷ last_poll ∷ poll ∷ []) job_loop)
run_worker-stops_example =
    run_worker-stops client (handle_record Postgres.postgres counter read_invoice "billing")
      (poll ∷ []) (poll ∷ []) last_poll job_loop refl

Reach-Follows_example : Follows empty_db one_accepted
Reach-Follows_example =
    Reach-Follows (later here (accept "evt_1" "invoice.paid" (123 ∷ 125 ∷ []) absent refl))
