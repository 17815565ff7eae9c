-- ===== src/Tests/Counts.antt =====
-- The count that a claim of the tests' event answers.
use go_stripe_webhook_k8s.Base.{◌≡◌, refl}
use go_stripe_webhook_k8s.Go.{ok}
use go_stripe_webhook_k8s.Sql
use go_stripe_webhook_k8s.Store.Statements
use go_stripe_webhook_k8s.Store.Schema.{CompletionClaim, claim_retry}
use go_stripe_webhook_k8s.Store.Lifecycle.{calm}
use go_stripe_webhook_k8s.Store.Postgres
use go_stripe_webhook_k8s.Store.Postgres.{claim_consumer_completion}
use go_stripe_webhook_k8s.Store.Rows.{driver}
use go_stripe_webhook_k8s.Store.Counts.{InRange, claim_consumer_completion-range}
use go_stripe_webhook_k8s.Tests.Data.{one_event, processing_db-IsValid}

abbrev third : CompletionClaim
third = record { action = claim_retry; attempt_count = 3 }

third_claim :
    (claim_consumer_completion "evt_1" "billing" "invoice.paid" (calm 0 (one_event "processing"))).0
    ≡ ok third
unfolding driver Postgres.claim_consumer_completion Statements.insert_completion
    Statements.select_completion Statements.retry_completion Statements.raise_attempts
    Statements.set_completion Statements.retry_row Sql.row_of Sql.insert_new
third_claim = refl

claim_consumer_completion-range_example : InRange 3
claim_consumer_completion-range_example =
    claim_consumer_completion-range "evt_1" "billing" "invoice.paid"
      (calm 0 (one_event "processing")) third refl processing_db-IsValid (λ n db h. h) third_claim
