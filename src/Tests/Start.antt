-- ===== src/Tests/Start.antt =====
-- The start of the processes on small stand-ins: what lies outside is the count of open pools.
use go_stripe_webhook_k8s.Base.{ℕ, ◌+◌, ◌-◌, String, List, [], ◌∷◌}
use go_stripe_webhook_k8s.Go.{plain, ok, err}
use go_stripe_webhook_k8s.Monad.{M}
use go_stripe_webhook_k8s.Config.{WorkerConfig, load_worker}
use go_stripe_webhook_k8s.Store.Open.{Dialer, new_postgres}
use go_stripe_webhook_k8s.Start.{
  World, ServerEvent, closed, listen_failed, signalled, start_worker, run_server,
}
use go_stripe_webhook_k8s.Start.Laws.{
  OpenOutcome, new_postgres-outcome, StartOutcome, start_worker-outcome, ServerOutcome, decisive,
  run_server-outcome,
}
use go_stripe_webhook_k8s.Tests.Config.{same_env, cluster, web}

abbrev unreachable : Dialer ℕ String
unreachable = record {
  connect = λ dsn n. (ok dsn, n + 1);
  ping = λ s n. (err (plain "connection refused"), n);
  close = λ s n. n - 1;
}

abbrev reachable : Dialer ℕ String
reachable = record {
  connect = λ dsn n. (ok dsn, n + 1);
  ping = λ s n. (ok tt, n);
  close = λ s n. n - 1;
}

new_postgres-outcome_example :
    OpenOutcome unreachable "postgres://db" 0
      (new_postgres unreachable "postgres://db" 0).0
      (new_postgres unreachable "postgres://db" 0).1
new_postgres-outcome_example = new_postgres-outcome unreachable "postgres://db" 0

abbrev outside : World ℕ
outside = record { outside = 0; log = [] }

abbrev group_client : WorkerConfig → M ℕ String
group_client cfg n = (ok cfg.kafka_group_id, n)

start_worker-outcome_example :
    let (p, v) =
      start_worker
        (new_postgres reachable)
        (load_worker same_env web cluster)
        group_client
        outside in
    StartOutcome (new_postgres reachable) same_env web cluster group_client outside p v
start_worker-outcome_example =
    start_worker-outcome (new_postgres reachable) same_env web cluster group_client outside

abbrev seen : List ServerEvent
seen = closed ∷ signalled "terminated" ∷ listen_failed (plain "address already in use") ∷ []

-- A shutdown that is not done in time.
abbrev too_slow : M ℕ (Unit {0})
too_slow n = (err (plain "context deadline exceeded"), n)

run_server-outcome_example :
    let (p, v) = run_server too_slow ":8080" seen outside in
    ServerOutcome too_slow ":8080" outside (decisive seen) p v
run_server-outcome_example = run_server-outcome too_slow ":8080" outside seen
