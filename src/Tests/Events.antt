-- ===== src/Tests/Events.antt =====
-- One event, accepted, processed and looked up.
use go_stripe_webhook_k8s.Base.{ℕ, ◌+◌, ◌≡◌, ◌≢◌, refl, true, some, none, subst, sym, [], ◌∷◌}
use go_stripe_webhook_k8s.Go.{Bytes, ok}
use go_stripe_webhook_k8s.Monad.{M}
use go_stripe_webhook_k8s.Store.Schema.{status_accepted, outbox_pending}
use go_stripe_webhook_k8s.Store.Statements.{ledger_row, outbox_row, completion_row}
use go_stripe_webhook_k8s.Store.Driver.{Session, arrive}
use go_stripe_webhook_k8s.Store.Postgres.{
  accept_event, process_event, status, outbox_status, completion_status,
}
use go_stripe_webhook_k8s.Store.Evolves.{Evolves, Evolves-Respects}
use go_stripe_webhook_k8s.Sql
use go_stripe_webhook_k8s.Store.Accept.{driver}
use go_stripe_webhook_k8s.Store.Lifecycle.{calm}
use go_stripe_webhook_k8s.Store.Process.{ProcessOutcome, process_event-outcome}
use go_stripe_webhook_k8s.Store.Reads.{
  Answers, event_status, outbox_answer, completion_answer, reads-answer, status-accept_event,
}
use go_stripe_webhook_k8s.Store.Recorded.{accept_event-once}
use go_stripe_webhook_k8s.Tests.Data.{one_event, empty_db, empty_db-Sound}
use go_stripe_webhook_k8s.Tests.Store.{cast, accepted_run, free_id}

abbrev body : Bytes
body = 110 ∷ []

-- The session after the event was accepted.
abbrev after : Session
after = (accept_event cast "evt_1" "invoice.paid" body (calm 0 empty_db)).1

after_quiet : (after.tx ≡ none) × ((arrive after).db ≡ after.db)
unfolding driver accept_event Sql.row_of
after_quiet = (refl, refl)

accept_event-once_example : (accept_event cast "evt_1" "invoice.paid" body after).0 ≢ ok true
accept_event-once_example =
    accept_event-once cast "evt_1" "invoice.paid" "invoice.paid" body body (calm 0 empty_db) after
      empty_db-Sound accepted_run after_quiet.0
      (subst (Evolves after.db) (sym after_quiet.1) (Evolves-Respects.preorder.reflexive after.db))

-- A callback that counts its calls.
abbrev count_call : M ℕ (Unit {0})
count_call n = (ok tt, n + 1)

process_event-outcome_example :
    let (a, (t, n)) = process_event "evt_1" "invoice.paid" (some count_call) (calm 0 empty_db, 0) in
    ProcessOutcome "evt_1" "invoice.paid" (calm 0 empty_db) 0 refl (some count_call) a t.db n
process_event-outcome_example =
    process_event-outcome "evt_1" "invoice.paid" (calm 0 empty_db) 0 refl (some count_call)

reads-answer_example :
    let db = one_event "failed" in
    Answers (calm 0 db) (status "evt_1" (calm 0 db)) (event_status (ledger_row "evt_1" db))
    × Answers
        (calm 0 db)
        (outbox_status "evt_1" (calm 0 db))
        (outbox_answer (outbox_row "evt_1" db))
    × Answers
        (calm 0 db)
        (completion_status "evt_1" "billing" (calm 0 db))
        (completion_answer (completion_row "evt_1" "billing" db))
reads-answer_example = reads-answer "evt_1" (calm 0 (one_event "failed")) "billing"

status-accept_event_example :
    (stored : Bytes) × (cast body ≡ some stored)
    × Answers after (status "evt_1" after) (record { status = status_accepted; found = true })
    × Answers after
        (outbox_status "evt_1" after)
        (record { found = true; status = outbox_pending; payload = stored })
status-accept_event_example =
    status-accept_event cast "evt_1" "invoice.paid" body (calm 0 empty_db) refl free_id accepted_run
      after_quiet.1
