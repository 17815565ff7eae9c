-- ===== src/Tests/Store.antt =====
-- The store on the tests' inputs.
use go_stripe_webhook_k8s.Base.{
  pair_eq, ◌≡◌, ◌≢◌, refl, true, false, Option, none, some, [], ◌∷◌, arith, ◌<◌,
}
use go_stripe_webhook_k8s.Go.{Bytes, ok, is_ok}
use go_stripe_webhook_k8s.Sql
use go_stripe_webhook_k8s.Sql.{IsKeyed}
use go_stripe_webhook_k8s.Store.Schema.{max_int, completion_key}
use go_stripe_webhook_k8s.Store.Statements
use go_stripe_webhook_k8s.Store.Driver.{done}
use go_stripe_webhook_k8s.Store.Postgres.{accept_event, next_pending_outbox}
use go_stripe_webhook_k8s.Store.Accept.{AcceptOutcome, accept_event-outcome, driver}
use go_stripe_webhook_k8s.Store.Outbox.{NextAnswer, next_pending_outbox-oldest}
use go_stripe_webhook_k8s.Store.Lifecycle.{
  calm, Claims, phase, attempts, unknown, claim_consumer_completion-refines,
}
use go_stripe_webhook_k8s.Tests.Data.{one_event, empty_db}

-- A cast that stores a text as it is, if there is one.
abbrev pub cast : Bytes → Option Bytes
cast [] = none
cast (b ∷ bs) = some (b ∷ bs)

pub accepted_run :
    (accept_event cast "evt_1" "invoice.paid" (110 ∷ []) (calm 0 empty_db)).0 ≡ ok true
unfolding driver accept_event Sql.row_of
accepted_run = refl

duplicate_run :
    (accept_event cast "evt_1" "invoice.paid" (110 ∷ []) (calm 0 (one_event "processing"))).0
    ≡ ok false
unfolding driver accept_event Sql.row_of
duplicate_run = refl

pub free_id :
    Statements.ledger_row "evt_1" empty_db ≡ none → Statements.outbox_row "evt_1" empty_db ≡ none
unfolding Sql.row_of
free_id e = refl

accept_event-outcome_example :
    let (r, t) = accept_event cast "evt_1" "invoice.paid" (110 ∷ []) (calm 0 empty_db) in
    AcceptOutcome cast "evt_1" "invoice.paid" (110 ∷ []) r empty_db t.db
accept_event-outcome_example =
    accept_event-outcome cast "evt_1" "invoice.paid" (110 ∷ []) (calm 0 empty_db) refl free_id

known_phase : phase "evt_1" "billing" (one_event "failed") ≢ unknown
unfolding Sql.row_of
known_phase = ground arith

attempts_left : attempts (phase "evt_1" "billing" (one_event "failed")) < max_int
unfolding Sql.row_of
attempts_left = omega arith

claim_consumer_completion-refines_example :
    Claims 0 "evt_1" "billing" "invoice.paid" (one_event "failed")
claim_consumer_completion-refines_example =
    claim_consumer_completion-refines 0 "evt_1" "billing" "invoice.paid" (one_event "failed")
      known_phase attempts_left

one_completion : IsKeyed completion_key (one_event "processing").completions
unfolding Sql.row_of
one_completion = (refl, tt)

next_pending_outbox-oldest_example :
    ((next_pending_outbox (calm 0 (one_event "processing"))).1.db ≡ one_event "processing")
    × NextAnswer (next_pending_outbox (calm 0 (one_event "processing"))).0 (one_event "processing")
    × (done ≡ done → is_ok (next_pending_outbox (calm 0 (one_event "processing"))).0 ≡ true)
next_pending_outbox-oldest_example = next_pending_outbox-oldest (calm 0 (one_event "processing"))
