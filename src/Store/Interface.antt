-- ===== src/Store/Interface.antt =====
-- The interface of internal/store/store.go and its implementation by `*Postgres`.
use go_stripe_webhook_k8s.Base.{String, Bool, Option}
use go_stripe_webhook_k8s.Go.{Bytes}
use go_stripe_webhook_k8s.Monad.{M}
use go_stripe_webhook_k8s.Store.Schema.{
  EventStatus, OutboxStatus, OutboxRow, CompletionClaim, CompletionStatus,
}
use go_stripe_webhook_k8s.Store.Driver.{Session}
use go_stripe_webhook_k8s.Store.Postgres

-- `Store`, over its state `S`; the callback of `process_event` acts on the state `X` of its caller.
pub record Store (S : Type 0) : Type 1 where
  pub process_event : {X : Type 0} → String → String → Option (M X (Unit {0})) → M (S × X) Bool
  pub accept_event : String → String → Bytes → M S Bool
  pub status : String → M S EventStatus
  pub outbox_status : String → M S OutboxStatus
  pub next_pending_outbox : M S (Option OutboxRow)
  pub mark_outbox_published : String → M S Bool
  pub claim_consumer_completion : String → String → String → M S CompletionClaim
  pub mark_consumer_processed : String → String → M S Bool
  pub mark_consumer_failed : String → String → String → M S Bool
  pub completion_status : String → String → M S CompletionStatus
  pub ping : M S (Unit {0})

-- `*Postgres` as a `Store`; `jsonb` is the database's cast to jsonb.
abbrev pub postgres : (Bytes → Option Bytes) → Store Session
postgres jsonb = record {
  process_event = λ id event_type fn. Postgres.process_event id event_type fn;
  accept_event = Postgres.accept_event jsonb;
  status = Postgres.status;
  outbox_status = Postgres.outbox_status;
  next_pending_outbox = Postgres.next_pending_outbox;
  mark_outbox_published = Postgres.mark_outbox_published;
  claim_consumer_completion = Postgres.claim_consumer_completion;
  mark_consumer_processed = Postgres.mark_consumer_processed;
  mark_consumer_failed = Postgres.mark_consumer_failed;
  completion_status = Postgres.completion_status;
  ping = Postgres.ping;
}
