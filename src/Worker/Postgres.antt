-- ===== src/Worker/Postgres.antt =====
-- The worker over the Postgres store.
use go_stripe_webhook_k8s.Store.Driver.{Session}
use go_stripe_webhook_k8s.Store.Postgres
use go_stripe_webhook_k8s.Worker.Record.{ConsumerCompletionStore}

-- `*store.Postgres` as a `ConsumerCompletionStore`.
abbrev pub postgres : ConsumerCompletionStore Session
postgres = record {
  claim_consumer_completion = Postgres.claim_consumer_completion;
  mark_consumer_processed = Postgres.mark_consumer_processed;
  mark_consumer_failed = Postgres.mark_consumer_failed;
}
