-- ===== src/Tests/Worker.antt =====
-- The worker on the tests' inputs.
use go_stripe_webhook_k8s.Base.{
  not, nat_eq, ℕ, ◌+◌, ◌≤◌, ◌↔◌, ◌⊎◌, String, ◌≡◌, ◌≢◌, refl, Bool, true, false, some, List, [],
  ◌∷◌, ◌++◌,
}
use go_stripe_webhook_k8s.Go.{Bytes, plain, ok, err}
use go_stripe_webhook_k8s.Engine.{Job}
use go_stripe_webhook_k8s.Sql
use go_stripe_webhook_k8s.Store.Statements
use go_stripe_webhook_k8s.Store.Statements.{completion_row}
use go_stripe_webhook_k8s.Store.Driver.{Session}
use go_stripe_webhook_k8s.Store.Postgres
use go_stripe_webhook_k8s.Store.Rows.{driver}
use go_stripe_webhook_k8s.Store.Marked.{IsSettled}
use go_stripe_webhook_k8s.Worker.JobErrors.{classify_http_status, is_retryable_job_error}
use go_stripe_webhook_k8s.Worker.Downstream.{DownstreamClient, HttpClient, deliver_job}
use go_stripe_webhook_k8s.Worker.Downstream.Laws.{
  Ending, deliver_job-ending, classify_http_status-retryable_iff,
}
use go_stripe_webhook_k8s.Worker.Record.{Env, handle_job, handle_record}
use go_stripe_webhook_k8s.Worker.Postgres.{postgres}
use go_stripe_webhook_k8s.Worker.Partition.{records_safe_to_commit}
use go_stripe_webhook_k8s.Worker.Partition.Laws.{Stops, records_safe_to_commit-prefix}
use go_stripe_webhook_k8s.Worker.Settles.{handle_record-settles}
use go_stripe_webhook_k8s.Worker.Duplicates.{handle_record-no_redelivery}
use go_stripe_webhook_k8s.Tests.Data.{
  one_event, completion, invoice, counter, read_invoice, message_1, worker_on, processing-Sound,
  processed-Sound,
}

-- Opens the worker, and the statements that it makes.
runs : Unit {0}
unfolding driver handle_record handle_job Postgres.claim_consumer_completion
    Postgres.mark_consumer_processed Postgres.mark_consumer_failed Statements.insert_completion
    Statements.select_completion Statements.retry_completion Statements.raise_attempts
    Statements.set_completion Statements.retry_row Statements.update_processed
    Statements.processed_row Statements.update_failed Statements.failed_row Sql.row_of
    Sql.insert_new Sql.update_where Sql.affected
runs = tt

abbrev handled : String → Bool × Env Session ℕ
handled state =
    handle_record postgres counter read_invoice "billing" message_1 (worker_on (one_event state))

-- An attempt that stopped half-way is made again, and its record may be committed.
retried_run : ((handled "processing").0 ≡ true) × ((handled "processing").1.net ≡ 1)
unfolding runs
retried_run = (refl, refl)

-- A downstream that is not there.
abbrev broken : DownstreamClient ℕ
broken = record { deliver_job = λ j n. (err (plain "connection refused"), n + 1) }

unreachable_run :
    (handle_record postgres broken read_invoice "billing" message_1
      (worker_on (one_event "processing"))).0
    ≡ false
unfolding runs is_retryable_job_error
unreachable_run = refl

handle_record-settles_example :
    (j : Job) × (read_invoice message_1.value ≡ ok j)
    × (j.stripe_event_id ≢ "")
    × IsSettled (completion_row j.stripe_event_id "billing" (handled "processing").1.store.db)
handle_record-settles_example =
    handle_record-settles counter read_invoice "billing" message_1
      (worker_on (one_event "processing")) processing-Sound retried_run.0

found_processed :
    completion_row "evt_1" "billing" (one_event "processed") ≡ some (completion "processed")
unfolding runs
found_processed = refl

handle_record-no_redelivery_example :
    ((handled "processed").1.net ≡ 0)
    × (completion_row "evt_1" "billing" (handled "processed").1.store.db
        ≡ some (completion "processed"))
handle_record-no_redelivery_example =
    handle_record-no_redelivery counter read_invoice "billing" message_1 invoice
      (worker_on (one_event "processed")) processed-Sound (completion "processed") found_processed
      refl refl

-- A handler of numbers that refuses 5 and adds up what it saw.
abbrev not_five : ℕ → ℕ → Bool × ℕ
not_five n w = (not (nat_eq n 5), w + n)

abbrev batch : List ℕ
batch = 2 ∷ 4 ∷ 5 ∷ 6 ∷ []

-- The batch stops at 5, and 6 is not looked at.
batch_run : records_safe_to_commit not_five batch 0 ≡ (2 ∷ 4 ∷ [], 11)
unfolding records_safe_to_commit
batch_run = refl

records_safe_to_commit-prefix_example :
    let (committed, w') = records_safe_to_commit not_five batch 0 in
    (rest : List ℕ) × (batch ≡ committed ++ rest) × Stops not_five committed rest 0 w'
records_safe_to_commit-prefix_example = records_safe_to_commit-prefix not_five batch 0

-- A network on which every request is answered by "too many requests".
abbrev busy : HttpClient ℕ
busy = record {
  Request = Bytes;
  marshal = λ j. ok j.payload;
  new_request = λ address body. ok body;
  send = λ req n. (ok 429, n + 1);
}

busy_run : (deliver_job busy "http://billing" invoice 0).1 ≡ 1
unfolding deliver_job
busy_run = refl

deliver_job-ending_example :
    Ending busy "http://billing" invoice 0 (deliver_job busy "http://billing" invoice 0)
deliver_job-ending_example = deliver_job-ending busy "http://billing" invoice 0

classify_http_status-retryable_iff_example :
    (is_retryable_job_error (classify_http_status 503) ≡ true) ↔ ((500 ≤ 503) ⊎ ◌≡◌ {A = ℕ} 503 429)
classify_http_status-retryable_iff_example = classify_http_status-retryable_iff 503
