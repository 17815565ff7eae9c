-- ===== src/Pipeline/Consumed.antt =====
-- From a webhook (cmd/api/handlers.go) by the outbox and Kafka (cmd/publisher/main.go) to the worker
-- (cmd/worker/main.go), over the same tables.
use go_stripe_webhook_k8s.Base.{
  ℕ, ◌<◌, String, ◌≡◌, ◌≢◌, sym, ◌∙◌, ap, subst, some, none, List, [], Option, string_eq, pair_eq,
  arith,
}
use go_stripe_webhook_k8s.Go.{Bytes, Result, ok, err}
use go_stripe_webhook_k8s.Log.{Entry}
use go_stripe_webhook_k8s.Engine.{Job}
use go_stripe_webhook_k8s.Sql.{row_of}
use go_stripe_webhook_k8s.Store.Schema.{Db, completion_key, max_int}
use go_stripe_webhook_k8s.Store.Statements.{ledger_row, completion_row}
use go_stripe_webhook_k8s.Store.Driver.{Session}
use go_stripe_webhook_k8s.Store.Valid.{IsValid}
use go_stripe_webhook_k8s.Store.Accepted.{accepted-IsValid}
use go_stripe_webhook_k8s.Store.Lifecycle.{calm, phase, phase_of, absent, unknown, attempts}
use go_stripe_webhook_k8s.Api.{
  header, Event, Request, read, job_of, handle_stripe_webhook, max_stripe_webhook_body,
}
use go_stripe_webhook_k8s.Api.Accepts
use go_stripe_webhook_k8s.Worker.Attempt.{Ends, work, attempt}
use go_stripe_webhook_k8s.Worker.Downstream.{DownstreamClient}
use go_stripe_webhook_k8s.Worker.Record.{KafkaRecord, handle_record}
use go_stripe_webhook_k8s.Worker.Postgres.{postgres}
use go_stripe_webhook_k8s.Publisher.{KafkaProducer, run_publisher}
use go_stripe_webhook_k8s.Publisher.Outbox
use go_stripe_webhook_k8s.Publisher.Pending.{pending_rows}
use go_stripe_webhook_k8s.Publisher.Drains.{rounds, count, after_sending, Accepts}
use go_stripe_webhook_k8s.Pipeline.{accepted, webhook-Accepted, handle_stripe_webhook-reaches}
use go_stripe_webhook_k8s.Worker.Calm.{record-Ends, record-Calm}
use go_stripe_webhook_k8s.Pipeline.Calm.{Calm, run_publisher-Calm}

attempt-known : (m : ℕ) (d : Result (Unit {0})) → (attempt m d).1 ≢ unknown
attempt-known m (ok u) e = cc
attempt-known m (err x) e = cc

attempt-room : (d : Result (Unit {0})) → attempts (attempt 1 d).1 < max_int
attempt-room (ok u) = omega arith
attempt-room (err x) = omega arith

module _ {N : Type 0} (downstream : DownstreamClient N) (unmarshal : Bytes → Result Job)
    (consumer : String) where
  -- Two records of an event without a completion, one after the other: the first is delivered as the
  -- first attempt, and the second does what the state machine says after that.
  abbrev pub Twice :
      (rec again : KafkaRecord) (j : Job) (s : Session) (net : N) (log : List Entry) → Type 0
  Twice rec again j s net log =
      let d = downstream.deliver_job j net in
      let (end, phase', net') = work absent net d in
      let y =
        handle_record postgres downstream unmarshal consumer rec
          (record { store = s; net = net; log = log }) in
      let z = handle_record postgres downstream unmarshal consumer again y.1 in
      Ends downstream unmarshal consumer rec j (work absent net d) y
      × Ends downstream unmarshal consumer again j
          (work phase' net' (downstream.deliver_job j net')) z

  record-Twice :
      (rec again : KafkaRecord) (j : Job) (s : Session) (db : Db) (net : N) (log : List Entry)
      → unmarshal rec.value ≡ ok j
      → unmarshal again.value ≡ ok j
      → j.stripe_event_id ≢ ""
      → Calm db s
      → completion_row j.stripe_event_id consumer db ≡ none
      → Twice rec again j s net log
  record-Twice rec again j s db net log decodes decodes' named (eta, valid, same) unclaimed =
      let d = downstream.deliver_job j net in
      let current : phase j.stripe_event_id consumer s.db ≡ absent =
        ap (λ rows. phase_of (row_of completion_key (j.stripe_event_id, consumer) rows)) same
        ∙ ap phase_of unclaimed in
      let first =
        record-Ends downstream unmarshal consumer rec j s absent net log decodes named eta valid
          current (λ e. cc) (omega arith) in
      let y =
        handle_record postgres downstream unmarshal consumer rec
          (record { store = s; net = net; log = log }) in
      let (eta', valid') = record-Calm downstream unmarshal consumer rec s net log eta valid in
      let second =
        record-Ends downstream unmarshal consumer again j y.1.store (attempt 1 d.0).1 y.1.net
          y.1.log decodes' named eta' valid' first.1 (attempt-known 1 d.0) (attempt-room d.0) in
      (
        first,
        subst
            (λ n.
              Ends downstream unmarshal consumer again j
                (work (attempt 1 d.0).1 n (downstream.deliver_job j n))
                (handle_record postgres downstream unmarshal consumer again y.1))
            first.2 second,
      )

  module _ (jsonb : Bytes → Option Bytes) (construct_event : Bytes → String → String → Result Event)
      (marshal : Job → Result Bytes) (secret : String) {K : Type 0} (producer : KafkaProducer K)
      (topic : String) (accepts : Accepts producer topic) where
    -- The session that the publisher leaves after a webhook.
    after_webhook-Calm :
        (r : Request) (body : Bytes) (ev : Event) (payload stored : Bytes) (n k : ℕ) (db : Db)
        (log log' : List Entry) (kafka : K)
        → r.body max_stripe_webhook_body ≡ read body
        → construct_event body r.signature secret ≡ ok ev
        → marshal (job_of ev) ≡ ok payload
        → jsonb payload ≡ some stored
        → IsValid db
        → ledger_row ev.id db ≡ none
        → let (resp, w) =
            handle_stripe_webhook
              (Accepts.postgres jsonb)
              construct_event
              marshal
              secret
              r
              (record { store = calm k db; log = log }) in
          Calm db
            (run_publisher producer Outbox.postgres topic
              (rounds n)
              (record { store = w.store; kafka = kafka; log = log' })).store
    after_webhook-Calm r body ev payload stored n k db log log' kafka is_read signed encodes stores
          valid unrecorded =
        let (answer, eta, tables) =
          webhook-Accepted jsonb construct_event marshal secret r body ev payload stored k db log
            is_read signed encodes stores unrecorded (valid.referenced ev.id unrecorded) in
        subst
          (λ t.
            Calm db
              (run_publisher producer Outbox.postgres topic (rounds n)
                (record { store = t; kafka = kafka; log = log' })).store)
          (ap (calm _) (sym tables) ∙ eta)
          (run_publisher-Calm producer topic (rounds n) _ (accepted ev.id ev.event_type stored db)
            kafka log' (accepted-IsValid ev.id ev.event_type stored db valid unrecorded))

    -- On a valid database that nobody else uses and whose calls succeed, with a broker that takes
    -- every record: a webhook that is read and signed, of an event whose id is not empty and not in
    -- the ledger and that has no completion of this consumer, and whose job is encoded and stored as
    -- `stored`, a value that is decoded to a job with this id, is answered by 204; after more rounds
    -- of the publisher than rows were pending before, none is pending, and the last record that the
    -- broker was sent has the event as its key and `stored` as its value, after the records of the
    -- rows that were pending; and the worker delivers that job on a record with this value, as the
    -- first attempt, and on another such record it does so again only if the first failed.
    pub handle_stripe_webhook-consumed :
        (r : Request) (body : Bytes) (ev : Event) (payload stored : Bytes) (n k : ℕ) (db : Db)
        (log log' log'' : List Entry) (kafka : K) (rec again : KafkaRecord) (j : Job) (net : N)
        → r.body max_stripe_webhook_body ≡ read body
        → construct_event body r.signature secret ≡ ok ev
        → marshal (job_of ev) ≡ ok payload
        → jsonb payload ≡ some stored
        → IsValid db
        → ledger_row ev.id db ≡ none
        → completion_row ev.id consumer db ≡ none
        → count (pending_rows db.outbox) < n
        → rec.value ≡ stored
        → again.value ≡ stored
        → unmarshal stored ≡ ok j
        → j.stripe_event_id ≡ ev.id
        → ev.id ≢ ""
        → let (resp, w) =
            handle_stripe_webhook
              (Accepts.postgres jsonb)
              construct_event
              marshal
              secret
              r
              (record { store = calm k db; log = log }) in
          let v =
            run_publisher producer Outbox.postgres topic
              (rounds n)
              (record { store = w.store; kafka = kafka; log = log' }) in
          (resp ≡ header 204)
          × (pending_rows v.store.db.outbox ≡ [])
          × (v.kafka
              ≡ (producer.produce_sync
                  (record { topic = topic; key = ev.id; value = stored })
                  (after_sending producer topic (pending_rows db.outbox) kafka)).1)
          × Twice rec again j v.store net log''
    handle_stripe_webhook-consumed r body ev payload stored n k db log log' log'' kafka rec again j
          net is_read signed encodes stores valid unrecorded unclaimed enough value value' decodes
          same_id named =
        let (answer, drained, sent) =
          handle_stripe_webhook-reaches jsonb construct_event marshal secret producer topic accepts
            r body ev payload stored n k db log log' kafka is_read signed encodes stores valid
            unrecorded enough in
        (
          answer,
          drained,
          sent,
          record-Twice rec again j _ db net log'' (ap unmarshal value ∙ decodes)
              (ap unmarshal value' ∙ decodes) (λ e. named (sym same_id ∙ e))
              (after_webhook-Calm r body ev payload stored n k db log log' kafka is_read signed
                encodes stores valid unrecorded)
              (subst (λ id. completion_row id consumer db ≡ none) (sym same_id) unclaimed),
        )
