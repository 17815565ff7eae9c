-- ===== src/Pipeline.antt =====
-- The API and the publisher one after the other, over the same tables: from a webhook
-- (cmd/api/handlers.go) by the outbox (internal/store/postgres.go) to Kafka (cmd/publisher/main.go).
pub mod Calm
pub mod Consumed
use go_stripe_webhook_k8s.Base.{
  true, Bool, Option, ℕ, ◌+◌, ◌<◌, String, ◌≡◌, refl, sym, ◌∙◌, ap, subst, some, none, List, [],
  ◌∷◌, ◌++◌, All, string_eq, true, false, Bool, arith,
}
use go_stripe_webhook_k8s.Go.{err, Bytes, Result, ok}
use go_stripe_webhook_k8s.Log.{Entry}
use go_stripe_webhook_k8s.Engine.{Job}
use go_stripe_webhook_k8s.Sql.Laws.{IsKeyed-append}
use go_stripe_webhook_k8s.Store.Schema.{Db, OutboxRecord, outbox_pending}
use go_stripe_webhook_k8s.Store.Statements.{ledger_row, outbox_row}
use go_stripe_webhook_k8s.Store.Driver.{Session}
use go_stripe_webhook_k8s.Store.Postgres.{accept_event}
use go_stripe_webhook_k8s.Store.Valid.{IsValid, OutboxCheck}
use go_stripe_webhook_k8s.Store.Accepted.{accepted-IsValid}
use go_stripe_webhook_k8s.Store.Lifecycle.{calm}
use go_stripe_webhook_k8s.Store.Accept.{accepted, pending_row, accept_event-same_script}
use go_stripe_webhook_k8s.Store.Fresh.{calm-eta, accept_event-fresh}
use go_stripe_webhook_k8s.Api.{
  Response, header, Env, Event, Request, read, job_of, after_accept, handle_stripe_webhook,
  max_stripe_webhook_body,
}
use go_stripe_webhook_k8s.Api.Accepts.{postgres}
use go_stripe_webhook_k8s.Publisher.{KafkaProducer, run_publisher}
use go_stripe_webhook_k8s.Publisher.Outbox
use go_stripe_webhook_k8s.Publisher.Pending.{pending_rows}
use go_stripe_webhook_k8s.Publisher.Drains.{
  rounds, count, after_sending, Accepts, Drained, run_publisher-drains,
}

pending_rows-append :
    (rows : List OutboxRecord) (r : OutboxRecord)
    → r.status ≡ outbox_pending
    → pending_rows (rows ++ r ∷ []) ≡ pending_rows rows ++ r ∷ []
pending_rows-append [] r pending = rw pending refl
pending_rows-append (q ∷ rows) r pending = ground (arith, pending_rows-append rows r pending)

after_sending-append :
    {K : Type 0} (producer : KafkaProducer K) (topic : String) (rows : List OutboxRecord)
    (r : OutboxRecord) (k : K)
    → after_sending producer topic (rows ++ r ∷ []) k
      ≡ after_sending producer topic (r ∷ []) (after_sending producer topic rows k)
after_sending-append producer topic [] r k = refl
after_sending-append producer topic (q ∷ rows) r k = after_sending-append producer topic rows r _

count-append :
    (rows : List OutboxRecord) (r : OutboxRecord) → count (rows ++ r ∷ []) ≡ count rows + 1
count-append [] r = refl
count-append (q ∷ rows) r = omega (arith, count-append rows r)

module _ (jsonb : Bytes → Option Bytes) (construct_event : Bytes → String → String → Result Event)
    (marshal : Job → Result Bytes) (secret : String) where
  -- The webhook answers 204 and leaves these tables, with nothing open.
  abbrev pub Accepted : Db → Response × Env Session → Type 0
  Accepted db x =
      (x.0 ≡ header 204) × (calm x.1.store.used x.1.store.db ≡ x.1.store) × (x.1.store.db ≡ db)

  accept-Accepted :
      (ev : Event) (w : Env Session) (db : Db) (x : Result Bool × Session)
      → x.0 ≡ ok true
      → calm x.1.used x.1.db ≡ x.1
      → x.1.db ≡ db
      → Accepted db (
          after_accept
            (postgres jsonb)
            construct_event
            marshal
            secret
            ev
            (x.0, record w { store = x.1 }))
  accept-Accepted ev w db (ok true, s) e eta same = (refl, eta, same)
  accept-Accepted ev w db (ok false, s) e eta same = cc
  accept-Accepted ev w db (err m, s) e eta same = cc

  -- A new event that is signed and whose payload the database stores.
  pub webhook-Accepted :
      (r : Request) (body : Bytes) (ev : Event) (payload stored : Bytes) (k : ℕ) (db : Db)
      (log : List Entry)
      → r.body max_stripe_webhook_body ≡ read body
      → construct_event body r.signature secret ≡ ok ev
      → marshal (job_of ev) ≡ ok payload
      → jsonb payload ≡ some stored
      → ledger_row ev.id db ≡ none
      → outbox_row ev.id db ≡ none
      → Accepted (accepted ev.id ev.event_type stored db) (
          handle_stripe_webhook
            (postgres jsonb)
            construct_event
            marshal
            secret
            r
            (record { store = calm k db; log = log }))
  unfolding handle_stripe_webhook
  webhook-Accepted r body ev payload stored k db log is_read signed encodes stores absent free =
      let id = ev.id in
      let x = accept_event jsonb id ev.event_type payload (calm k db) in
      let (answer, tables, closed) =
        accept_event-fresh jsonb id ev.event_type payload stored k db absent free stores in
      rw (is_read, signed, encodes)
        (accept-Accepted ev (record { store = calm k db; log = log }) _ x answer
          (calm-eta k db x.1 closed
            (accept_event-same_script jsonb id ev.event_type payload (calm k db)))
          tables)

  module _ {K : Type 0} (producer : KafkaProducer K) (topic : String)
      (accepts : Accepts producer topic) where
    -- The publisher from the session that the webhook left.
    published_after :
        (n : ℕ) (db : Db) (id event_type : String) (stored : Bytes) (s : Session) (kafka : K)
        (log : List Entry)
        → IsValid db
        → ledger_row id db ≡ none
        → count (pending_rows db.outbox) < n
        → calm s.used s.db ≡ s
        → s.db ≡ accepted id event_type stored db
        → Drained producer topic
            (pending_rows db.outbox ++ pending_row id event_type stored db ∷ [])
            kafka
            (run_publisher producer Outbox.postgres topic
              (rounds n)
              (record { store = s; kafka = kafka; log = log }))
    published_after n db id event_type stored s kafka log valid unrecorded enough eta tables =
        let r = pending_row id event_type stored db in
        let more : pending_rows (db.outbox ++ r ∷ []) ≡ pending_rows db.outbox ++ r ∷ [] =
          pending_rows-append db.outbox r refl in
        subst
          (λ t. Drained producer topic (pending_rows db.outbox ++ r ∷ []) kafka (
            run_publisher producer Outbox.postgres topic (rounds n)
              (record { store = t; kafka = kafka; log = log })))
          (ap (calm s.used) (sym tables) ∙ eta)
          (subst
            (λ rows. Drained producer topic rows kafka (
              run_publisher producer Outbox.postgres topic (rounds n) (record {
                store = calm s.used (accepted id event_type stored db);
                kafka = kafka;
                log = log;
              })))
            more
            (run_publisher-drains producer topic accepts n s.used (accepted id event_type stored db)
              kafka log (accepted-IsValid id event_type stored db valid unrecorded)
              (rw (more, count-append (pending_rows db.outbox) r) (omega arith))))

    -- On a valid database that nobody else uses and whose calls succeed, with a broker that takes every record: a webhook that is read and signed, of an event
    -- that is not in the ledger and whose job is encoded and stored as `stored`, is answered by 204;
    -- and after that, more rounds of the publisher than rows were pending before leave none pending,
    -- and the last record that the broker was sent has the event as its key and `stored` as its value,
    -- after the records of the rows that were pending before.
    pub handle_stripe_webhook-reaches :
        (r : Request) (body : Bytes) (ev : Event) (payload stored : Bytes) (n k : ℕ) (db : Db)
        (log log' : List Entry) (kafka : K)
        → r.body max_stripe_webhook_body ≡ read body
        → construct_event body r.signature secret ≡ ok ev
        → marshal (job_of ev) ≡ ok payload
        → jsonb payload ≡ some stored
        → IsValid db
        → ledger_row ev.id db ≡ none
        → count (pending_rows db.outbox) < n
        → let (resp, w) =
            handle_stripe_webhook
              (postgres jsonb)
              construct_event
              marshal
              secret
              r
              (record { store = calm k db; log = log }) in
          let v =
            run_publisher producer Outbox.postgres topic
              (rounds n)
              (record { store = w.store; kafka = kafka; log = log' }) in
          (resp ≡ header 204)
          × (pending_rows v.store.db.outbox ≡ [])
          × (v.kafka
              ≡ (producer.produce_sync
                  (record { topic = topic; key = ev.id; value = stored })
                  (after_sending producer topic (pending_rows db.outbox) kafka)).1)
    handle_stripe_webhook-reaches r body ev payload stored n k db log log' kafka is_read signed
          encodes stores valid absent enough =
        let free = valid.referenced ev.id absent in
        let (answer, eta, tables) =
          webhook-Accepted r body ev payload stored k db log is_read signed encodes stores absent
            free in
        let (drained, last) =
          published_after n db ev.id ev.event_type stored _ kafka log' valid absent enough eta
            tables in
        (
          answer,
          drained,
          last ∙ after_sending-append producer topic (pending_rows db.outbox) _ kafka,
        )
