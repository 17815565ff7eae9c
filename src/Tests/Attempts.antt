-- ===== src/Tests/Attempts.antt =====
-- An attempt of the worker on a calm database.
use go_stripe_webhook_k8s.Base.{
  ℕ, ◌+◌, ltb, true, if◌then◌else◌, subst, sym, ◌≡◌, ◌≢◌, refl, ◌<◌, [], arith, string_eq,
}
use go_stripe_webhook_k8s.Go.{plain, ok, err}
use go_stripe_webhook_k8s.Store.Statements
use go_stripe_webhook_k8s.Store.Statements.{completion_row}
use go_stripe_webhook_k8s.Store.Driver.{Session, arrive}
use go_stripe_webhook_k8s.Store.Postgres.{mark_consumer_processed, mark_consumer_failed}
use go_stripe_webhook_k8s.Store.Rows.{driver}
use go_stripe_webhook_k8s.Store.Valid.{IsValid, KeepsValid-Respects}
use go_stripe_webhook_k8s.Store.Evolves.{Evolves, Evolves-Respects}
use go_stripe_webhook_k8s.Store.Guarantee.{mark_consumer_processed-Keeps}
use go_stripe_webhook_k8s.Store.Once.{mark_consumer_processed-once}
use go_stripe_webhook_k8s.Worker.JobErrors.{is_retryable_job_error}
use go_stripe_webhook_k8s.Worker.Downstream.{DownstreamClient}
use go_stripe_webhook_k8s.Worker.Retries.{HasMade, until_committed, until_committed-commits}
use go_stripe_webhook_k8s.Store.Schema.{Db, max_int}
use go_stripe_webhook_k8s.Store.Lifecycle.{calm, unknown, attempts, processing, processed, phase}
use go_stripe_webhook_k8s.Sql
use go_stripe_webhook_k8s.Worker.Record.{handle_record}
use go_stripe_webhook_k8s.Worker.Postgres.{postgres}
use go_stripe_webhook_k8s.Worker.Attempt.{work, Ends, handle_record-refines}
use go_stripe_webhook_k8s.Tests.Data.{
  one_event, invoice, counter, read_invoice, message_1, worker_on, processing_db-IsValid,
  processing-Sound,
}

abbrev second : Db
second = one_event "processing"

second_is : phase "evt_1" "billing" second ≡ processing 2
unfolding Sql.row_of
second_is = refl

second_is_known : phase "evt_1" "billing" second ≢ unknown
second_is_known = rw second_is (λ e. cc)

second_has_room : attempts (phase "evt_1" "billing" second) < max_int
second_has_room = rw second_is (omega arith)

handle_record-refines_example :
    Ends counter read_invoice "billing" message_1 invoice
      (work (phase "evt_1" "billing" second) 0 (counter.deliver_job invoice 0))
      (handle_record postgres counter read_invoice "billing" message_1 (worker_on second))
handle_record-refines_example =
    handle_record-refines counter read_invoice "billing" message_1 invoice 0 second 0 [] refl
      (λ e. cc) processing_db-IsValid second_is_known second_has_room

-- A downstream that is not there at first.
abbrev late : DownstreamClient ℕ
late = record {
  deliver_job =
      λ j n. if ltb n 2 then (err (plain "connection refused"), n + 1) else (ok tt, n + 1);
}

plain_is_retried : is_retryable_job_error (plain "connection refused") ≡ true
unfolding is_retryable_job_error
plain_is_retried = refl

until_committed-commits_example :
    let (committed, w) =
      until_committed late read_invoice "billing" message_1 5
        (record { store = calm 0 second; net = 0; log = [] }) in
    (committed ≡ true) × (phase "evt_1" "billing" w.store.db ≡ processed 5) × (w.net ≡ 3)
until_committed-commits_example =
    until_committed-commits late read_invoice "billing" message_1 2 5 2 0 invoice second 0 []
      (omega arith) (omega arith) refl (λ e. cc) processing_db-IsValid
      (subst (HasMade 2) (sym second_is) refl)
      (
        (plain "connection refused", refl, plain_is_retried),
        ((plain "connection refused", refl, plain_is_retried), refl),
      )

abbrev marked : Session
marked = (mark_consumer_processed "evt_1" "billing" (calm 0 second)).1

marked_true : (mark_consumer_processed "evt_1" "billing" (calm 0 second)).0 ≡ ok true
unfolding driver mark_consumer_processed Statements.update_processed Statements.set_completion
    Statements.processed_row Sql.update_where Sql.affected
marked_true = refl

marked_quiet : (arrive marked).db ≡ marked.db
unfolding driver mark_consumer_processed Statements.update_processed
marked_quiet = refl

marked-IsValid : IsValid marked.db
marked-IsValid =
    ((mark_consumer_processed-Keeps KeepsValid-Respects "evt_1" "billing").at (calm 0 second) refl
        (λ n d v. v)).related
      processing_db-IsValid

mark_consumer_processed-once_example :
    let row = completion_row "evt_1" "billing" marked.db in
    let (r, v) = mark_consumer_processed "evt_1" "billing" marked in
    let (r', v') = mark_consumer_failed "evt_1" "billing" "rejected" marked in
    (r ≢ ok true)
    × (r' ≢ ok true)
    × (completion_row "evt_1" "billing" v.db ≡ row)
    × (completion_row "evt_1" "billing" v'.db ≡ row)
mark_consumer_processed-once_example =
    mark_consumer_processed-once "evt_1" "billing" (calm 0 second) marked "rejected"
      processing-Sound marked_true
      (subst IsValid (sym marked_quiet) marked-IsValid).completions_keyed
      (subst (Evolves marked.db) (sym marked_quiet) (Evolves-Respects.preorder.reflexive marked.db))
