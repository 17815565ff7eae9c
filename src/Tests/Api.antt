-- ===== src/Tests/Api.antt =====
-- The webhook on the tests' inputs.
use go_stripe_webhook_k8s.Base.{
  String, ◌≡◌, refl, Option, some, [], ◌∷◌, ◌==◌, string_eq, if◌then◌else◌,
}
use go_stripe_webhook_k8s.Go.{Bytes, plain, Result, ok, err}
use go_stripe_webhook_k8s.Engine.{Job}
use go_stripe_webhook_k8s.Sql
use go_stripe_webhook_k8s.Store.Statements.{ledger_row}
use go_stripe_webhook_k8s.Store.Driver.{Session}
use go_stripe_webhook_k8s.Store.Postgres
use go_stripe_webhook_k8s.Store.Recorded.{IsRecorded}
use go_stripe_webhook_k8s.Store.Accept.{driver}
use go_stripe_webhook_k8s.Store.Lifecycle.{calm}
use go_stripe_webhook_k8s.Api.{
  read, Request, Event, Response, header, Env, handle_stripe_webhook, max_stripe_webhook_body,
}
use go_stripe_webhook_k8s.Api.Accepts.{postgres, handle_stripe_webhook-IsRecorded}
use go_stripe_webhook_k8s.Api.Rejects.{Refusal, handle_stripe_webhook-rejects}
use go_stripe_webhook_k8s.Tests.Data.{empty_db, empty_db-Sound}

abbrev pub cast : Bytes → Option Bytes
cast b = some b

-- A check of signatures that admits one.
abbrev pub signed : Bytes → String → String → Result Event
signed body signature secret =
    if signature == secret
    then ok (record { id = "evt_1"; event_type = "invoice.paid"; raw = some body })
    else err (plain "webhook had no valid signature")

abbrev pub encode : Job → Result Bytes
encode j = ok j.payload

abbrev pub request : String → Request
request signature = record { body = λ limit. read (123 ∷ 125 ∷ []); signature = signature }

abbrev api : Env Session
api = record { store = calm 0 empty_db; log = [] }

abbrev pub answer : String → Response × Env Session
answer signature =
    handle_stripe_webhook (postgres cast) signed encode "whsec" (request signature) api

accepted_answer : (answer "whsec").0 ≡ header 204
unfolding driver handle_stripe_webhook Postgres.accept_event Sql.row_of
accepted_answer = refl

handle_stripe_webhook-IsRecorded_example :
    (body : Bytes) × (ev : Event) × ((request "whsec").body max_stripe_webhook_body ≡ read body)
    × (signed body "whsec" "whsec" ≡ ok ev)
    × IsRecorded (ledger_row ev.id (answer "whsec").1.store.db)
handle_stripe_webhook-IsRecorded_example =
    handle_stripe_webhook-IsRecorded cast signed encode "whsec" (request "whsec") api empty_db-Sound
      accepted_answer

handle_stripe_webhook-rejects_example :
    ((answer "guess").1.store ≡ calm 0 empty_db)
    × Refusal ((request "guess").body max_stripe_webhook_body) (answer "guess").0
handle_stripe_webhook-rejects_example =
    handle_stripe_webhook-rejects (postgres cast) signed encode "whsec" (request "guess") api
      (λ body e. refl)
