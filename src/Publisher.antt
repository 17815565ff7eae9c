-- ===== src/Publisher.antt =====
-- cmd/publisher: it sends the rows of the outbox to Kafka, the oldest first, and marks each as
-- published. The producer (franz-go) is a parameter.
pub mod LogMsg
pub mod Laws
pub mod Outbox
pub mod Delivered
pub mod Pending
pub mod Calls
pub mod Drains
pub mod Changes
pub mod Patience
use go_stripe_webhook_k8s.Publisher.LogMsg.{
  outbox_mark_published_failed, outbox_publish_failed, outbox_publish_succeeded,
}
use go_stripe_webhook_k8s.Base.{
  String, Bool, true, false, Option, none, some, List, [], ◌∷◌, ◌++◌, if◌then◌else◌,
}
use go_stripe_webhook_k8s.Go.{Bytes, Error, message, Result, ok, err}
use go_stripe_webhook_k8s.Monad.{M}
use go_stripe_webhook_k8s.Log.{Value, text, Entry, log_info, log_error}
use go_stripe_webhook_k8s.Store.Schema.{OutboxRow}

-- The fields of `kgo.Record` that the publisher sets.
pub record ProducerRecord : Type 0 where
  pub topic : String
  pub key : String
  pub value : Bytes

-- `kafkaProducer`, over the state `K` of the broker; the answer is `results.FirstErr()`.
pub record KafkaProducer (K : Type 0) : Type 0 where
  pub produce_sync : ProducerRecord → M K (Unit {0})

-- What the publisher calls of the store.
pub record OutboxStore (S : Type 0) : Type 0 where
  pub next_pending_outbox : M S (Option OutboxRow)
  pub mark_outbox_published : String → M S Bool

-- The state that the publisher acts on.
pub record Env (S K : Type 0) : Type 0 where
  pub store : S
  pub kafka : K
  pub log : List Entry

abbrev pub outbox_record : String → OutboxRow → ProducerRecord
outbox_record topic row = record { topic = topic; key = row.event_id; value = row.payload }

-- How a round ends: at once with the next, or after `sleepOrDone`.
pub data Next : Type 0 where
  again sleep : Next

module _ {S K : Type 0} (producer : KafkaProducer K) (st : OutboxStore S) (topic : String) where
  abbrev pub logged : Entry → Env S K → Env S K
  logged e w = record w { log = w.log ++ e ∷ [] }

  abbrev pub on_store : {A : Type 0} → M S A → M (Env S K) A
  on_store m w = let (r, s) = m w.store in (r, record w { store = s })

  abbrev pub produced : ProducerRecord → Result (Unit {0}) × K → Result ProducerRecord × K
  produced rec (ok u, k) = (ok rec, k)
  produced rec (err e, k) = (err e, k)

  -- `publishOutbox`
  unfoldable pub publish_outbox : OutboxRow → M K ProducerRecord
  publish_outbox row k =
      produced (outbox_record topic row) (producer.produce_sync (outbox_record topic row) k)

  abbrev pub on_kafka : {A : Type 0} → M K A → M (Env S K) A
  on_kafka m w = let (r, k) = m w.kafka in (r, record w { kafka = k })

  abbrev pub event_attrs : OutboxRow → List (String × Value)
  event_attrs row = ("event_id", text row.event_id) ∷ ("topic", text topic) ∷ []

  abbrev pub failed_entry : OutboxRow → Error → Entry
  failed_entry row e =
      log_error outbox_publish_failed (event_attrs row ++ ("error", text (message e)) ∷ [])

  abbrev pub after_mark : OutboxRow → Result Bool × Env S K → Next × Env S K
  after_mark row (err e, w) = (sleep, logged (failed_entry row e) w)
  after_mark row (ok false, w) = (
    sleep,
    logged
        (log_error outbox_mark_published_failed
          (event_attrs row ++ ("error", text "conditional update matched 0 rows") ∷ []))
        w,
  )
  after_mark row (ok true, w) =
      (again, logged (log_info outbox_publish_succeeded (event_attrs row)) w)

  abbrev pub after_publish : OutboxRow → Result ProducerRecord × Env S K → Next × Env S K
  after_publish row (err e, w) = (sleep, logged (failed_entry row e) w)
  after_publish row (ok rec, w) =
      after_mark row (on_store (st.mark_outbox_published row.event_id) w)

  abbrev pub after_next : Result (Option OutboxRow) × Env S K → Next × Env S K
  after_next (err e, w) =
      (sleep, logged (log_error outbox_publish_failed (("error", text (message e)) ∷ [])) w)
  after_next (ok none, w) = (sleep, w)
  after_next (ok (some row), w) = after_publish row (on_kafka (publish_outbox row) w)

  -- A round of the loop of `main`.
  unfoldable pub round : Env S K → Next × Env S K
  round w = after_next (on_store st.next_pending_outbox w)

  -- The loop, over whether the context is cancelled at the start of each round that happens.
  unfoldable pub run_publisher : List Bool → Env S K → Env S K
  run_publisher [] w = w
  run_publisher (cancelled ∷ rounds) w =
      let rest = run_publisher rounds (round w).1 in if cancelled then w else rest
