-- ===== src/Tests/Pipeline.antt =====
-- A webhook on an empty database, one round of the publisher after it, and two records at the worker.
use go_stripe_webhook_k8s.Base.{ℕ, string_eq, ==-iff, List, none, ◌≡◌, refl, some, [], ◌∷◌, arith}
use go_stripe_webhook_k8s.Go.{Bytes}
use go_stripe_webhook_k8s.Sql
use go_stripe_webhook_k8s.Store.Driver.{Session}
use go_stripe_webhook_k8s.Store.Statements.{ledger_row, completion_row}
use go_stripe_webhook_k8s.Api.{Event, header}
use go_stripe_webhook_k8s.Publisher.{Env, run_publisher, ProducerRecord}
use go_stripe_webhook_k8s.Publisher.Outbox.{postgres}
use go_stripe_webhook_k8s.Publisher.Pending.{pending_rows}
use go_stripe_webhook_k8s.Publisher.Drains.{rounds}
use go_stripe_webhook_k8s.Pipeline.Consumed.{Twice, handle_stripe_webhook-consumed}
use go_stripe_webhook_k8s.Worker.Record.{KafkaRecord}
use go_stripe_webhook_k8s.Tests.Data.{empty_db, empty_db-Sound, counter, read_invoice, invoice}
use go_stripe_webhook_k8s.Tests.Api.{cast, signed, encode, request, answer}
use go_stripe_webhook_k8s.Tests.Publisher.{broker}

abbrev body : Bytes
body = 123 ∷ 125 ∷ []

abbrev event : Event
event = record { id = "evt_1"; event_type = "invoice.paid"; raw = some body }

unknown_event : ledger_row "evt_1" empty_db ≡ none
unfolding Sql.row_of
unknown_event = refl

abbrev published : Env Session (List ProducerRecord)
published =
    run_publisher broker postgres "jobs" (rounds 1)
      (record { store = (answer "whsec").1.store; kafka = []; log = [] })

-- The record that the worker is given, twice.
abbrev delivered_at : ℕ → KafkaRecord
delivered_at n = record { partition = 0; offset = n; value = body }

unclaimed : completion_row "evt_1" "billing" empty_db ≡ none
unfolding Sql.row_of
unclaimed = refl

handle_stripe_webhook-consumed_example :
    ((answer "whsec").0 ≡ header 204)
    × (pending_rows published.store.db.outbox ≡ [])
    × (published.kafka ≡ record { topic = "jobs"; key = "evt_1"; value = body } ∷ [])
    × Twice counter read_invoice "billing"
        (delivered_at 3)
        (delivered_at 4)
        invoice
        published.store
        0
        []
handle_stripe_webhook-consumed_example =
    handle_stripe_webhook-consumed counter read_invoice "billing" cast signed encode "whsec" broker
      "jobs" (λ rec k. refl) (request "whsec") body event body body 1 0 empty_db [] [] [] []
      (delivered_at 3) (delivered_at 4) invoice 0 refl refl refl refl empty_db-Sound.valid
      unknown_event unclaimed (omega arith) refl refl refl refl
      (λ e. ground (arith, ==-iff event.id ""))
