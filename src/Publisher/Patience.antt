-- ===== src/Publisher/Patience.antt =====
-- Runs of the publisher (cmd/publisher/main.go) with a broker that refuses records only finitely
-- often, on a database that nobody else uses and whose calls succeed.
use go_stripe_webhook_k8s.Base.{
  zero, suc, ℕ, ◌+◌, ◌≤◌, ◌<◌, String, ◌≡◌, refl, none, some, Option, List, [], ◌∷◌, string_eq, ap,
  ◌∙◌, arith,
}
use go_stripe_webhook_k8s.Go.{Error, Result, ok, err}
use go_stripe_webhook_k8s.Log.{Entry}
use go_stripe_webhook_k8s.Sql.{IsKeyed}
use go_stripe_webhook_k8s.Sql.Laws.{update_where-IsKeyed}
use go_stripe_webhook_k8s.Store.Schema.{Db, OutboxRow, OutboxRecord}
use go_stripe_webhook_k8s.Store.Ordered.{Ascending, marked, marked-Ascending}
use go_stripe_webhook_k8s.Store.Valid.{IsValid}
use go_stripe_webhook_k8s.Store.Driver.{Session}
use go_stripe_webhook_k8s.Store.Lifecycle.{calm}
use go_stripe_webhook_k8s.Store.Outbox.{marked_db}
use go_stripe_webhook_k8s.Publisher.{
  OutboxRow, ProducerRecord, KafkaProducer, Env, outbox_record, round, run_publisher,
  publish_outbox, after_publish, produced,
}
use go_stripe_webhook_k8s.Publisher.Outbox.{postgres, row_record, IsDurable, AllDelivered, NoNewer}
use go_stripe_webhook_k8s.Publisher.Delivered.{run_publisher-Publishing}
use go_stripe_webhook_k8s.Store.Statements.{outbox_row}
use go_stripe_webhook_k8s.Store.Invariant.{Reach-Sound}
use go_stripe_webhook_k8s.Store.Reach.{Reach}
use go_stripe_webhook_k8s.Publisher.Calls.{next_some, first_hit}
use go_stripe_webhook_k8s.Publisher.Pending.{
  pending_rows, first, oldest-Ascending, pending_rows-marked,
}
use go_stripe_webhook_k8s.Publisher.Drains.{rounds, count, no_rows, Steps, idle_round, marked_round}

-- A broker whose patience with the records that it refuses runs out: each refusal costs some of it,
-- and taking a record gives none back.
pub record IsPatient {K : Type 0} (producer : KafkaProducer K) (patience : K → ℕ) : Type 0 where
  pub taken :
      (rec : ProducerRecord) (k : K)
      → (producer.produce_sync rec k).0 ≡ ok tt
      → patience (producer.produce_sync rec k).1 ≤ patience k
  pub refused :
      (rec : ProducerRecord) (k : K) (e : Error)
      → (producer.produce_sync rec k).0 ≡ err e
      → patience (producer.produce_sync rec k).1 < patience k

NoNewer-refl : (o : Option OutboxRecord) → NoNewer o o
NoNewer-refl none = tt
NoNewer-refl (some r) = λ e. (e, refl)

module _ {K : Type 0} (producer : KafkaProducer K) (topic : String) where
  refused_step :
      (row : OutboxRow) (w : Env Session K) (x : Result (Unit {0}) × K) (e : Error)
      → x.0 ≡ err e
      → Steps producer topic w.store x.1 (
          let (r, k) = produced producer postgres topic (outbox_record topic row) x in
          after_publish producer postgres topic row (r, record w { kafka = k }))
  refused_step row w (ok u, k) e fails = cc
  refused_step row w (err m, k) e fails = (refl, refl)

  -- A round whose row the broker refuses leaves the tables.
  refused_round :
      (k : ℕ) (db : Db) (w : Env Session K) (best : OutboxRecord) (rest : List OutboxRecord)
      (e : Error)
      → (producer.produce_sync (row_record topic best) w.kafka).0 ≡ err e
      → w.store ≡ calm k db
      → IsKeyed (λ (r : OutboxRecord). r.event_id) db.outbox
      → Ascending db.outbox
      → pending_rows db.outbox ≡ best ∷ rest
      → Steps producer topic
          (calm (k + 1) db)
          (producer.produce_sync (row_record topic best) w.kafka).1
          (round producer postgres topic w)
  unfolding round publish_outbox
  refused_round k db w best rest e fails here keyed ascending found =
      let (chosen, hit) = first_hit k db best rest keyed ascending found in
      rw (here, next_some k db best chosen)
        (refused_step (record { event_id = best.event_id; payload = best.payload })
          (record w { store = calm (k + 1) db })
          (producer.produce_sync (row_record topic best) w.kafka) e fails)

  -- Where no row is pending, none is after more rounds.
  stays_empty :
      (n k : ℕ) (db : Db) (w : Env Session K)
      → w.store ≡ calm k db
      → Ascending db.outbox
      → pending_rows db.outbox ≡ []
      → pending_rows (run_publisher producer postgres topic (rounds n) w).store.db.outbox ≡ []
  unfolding run_publisher
  stays_empty zero k db w here ascending found = rw here found
  stays_empty (suc n) k db w here ascending found =
      let (store, kafka) =
        idle_round producer topic k db w here
          (oldest-Ascending db.outbox ascending ∙ ap first found) in
      stays_empty n (k + 1) db (round producer postgres topic w).1 store ascending found

  module _ (patience : K → ℕ) (patient : IsPatient producer patience) where
    -- `n` rounds leave none pending of what they can take and of what the broker may refuse.
    abbrev Empties : ℕ → Type 0
    Empties n =
        (k : ℕ) (db : Db) (w : Env Session K)
        → w.store ≡ calm k db
        → IsKeyed (λ (r : OutboxRecord). r.event_id) db.outbox
        → Ascending db.outbox
        → count (pending_rows db.outbox) + patience w.kafka ≤ n
        → pending_rows (run_publisher producer postgres topic (rounds n) w).store.db.outbox ≡ []

    -- The first pending row, by the broker's answer to it.
    answered-Empties :
        (n k : ℕ) (db : Db) (w : Env Session K) (best : OutboxRecord) (rest : List OutboxRecord)
        (a : Result (Unit {0}))
        → Empties n
        → w.store ≡ calm k db
        → IsKeyed (λ (r : OutboxRecord). r.event_id) db.outbox
        → Ascending db.outbox
        → pending_rows db.outbox ≡ best ∷ rest
        → count rest + 1 + patience w.kafka ≤ suc n
        → (producer.produce_sync (row_record topic best) w.kafka).0 ≡ a
        → pending_rows
            (run_publisher producer postgres topic
              (rounds n)
              (round producer postgres topic w).1).store.db.outbox
          ≡ []
    answered-Empties n k db w best rest (ok u) empties here keyed ascending found enough answer =
        let (store, kafka) =
          marked_round producer topic k db w best rest answer here keyed ascending found in
        let left : pending_rows (marked db.now best.event_id db.outbox) ≡ rest =
          pending_rows-marked db.now best rest db.outbox keyed found in
        empties (k + 1 + 1 + 1) (marked_db best.event_id db) (round producer postgres topic w).1
          store
          (update_where-IsKeyed (λ (r : OutboxRecord). r.event_id) best.event_id _ _ (λ r. refl)
            db.outbox keyed)
          (marked-Ascending db.now best.event_id db.outbox ascending)
          (rw (left, kafka)
            (omega (arith, enough, patient.taken (row_record topic best) w.kafka answer)))
    answered-Empties n k db w best rest (err e) empties here keyed ascending found enough answer =
        let (store, kafka) = refused_round k db w best rest e answer here keyed ascending found in
        empties (k + 1) db (round producer postgres topic w).1 store keyed ascending (
          rw (found, kafka)
            (omega (arith, enough, patient.refused (row_record topic best) w.kafka e answer)))

    step-Empties :
        (n k : ℕ) (db : Db) (w : Env Session K) (rows : List OutboxRecord)
        → Empties n
        → w.store ≡ calm k db
        → IsKeyed (λ (r : OutboxRecord). r.event_id) db.outbox
        → Ascending db.outbox
        → pending_rows db.outbox ≡ rows
        → count rows + patience w.kafka ≤ suc n
        → pending_rows
            (run_publisher producer postgres topic
              (rounds n)
              (round producer postgres topic w).1).store.db.outbox
          ≡ []
    step-Empties n k db w [] empties here keyed ascending found enough =
        let (store, kafka) =
          idle_round producer topic k db w here
            (oldest-Ascending db.outbox ascending ∙ ap first found) in
        stays_empty n (k + 1) db (round producer postgres topic w).1 store ascending found
    step-Empties n k db w (best ∷ rest) empties here keyed ascending found enough =
        answered-Empties n k db w best rest _ empties here keyed ascending found enough refl

    rounds-Empties : (n : ℕ) → Empties n
    unfolding run_publisher
    rounds-Empties zero k db w here keyed ascending enough =
        rw here (no_rows (pending_rows db.outbox) (omega (arith, enough)))
    rounds-Empties (suc n) k db w here keyed ascending enough =
        step-Empties n k db w (pending_rows db.outbox) (rounds-Empties n) here keyed ascending refl
          enough

    -- On a valid database that nobody else uses and whose calls succeed, with a durable broker whose
    -- refusals come to an end: after as many rounds as rows are pending and as refusals are left, or
    -- more, no row is pending, and each published row is one whose record the broker has, if that was
    -- so of the rows that were published before.
    pub run_publisher-empties :
        (Taken : ProducerRecord → K → Type 0) (n k : ℕ) (db : Db) (kafka : K) (log : List Entry)
        → IsDurable producer Taken
        → IsValid db
        → AllDelivered Taken topic kafka db
        → count (pending_rows db.outbox) + patience kafka ≤ n
        → let v =
            run_publisher producer postgres topic
              (rounds n)
              (record { store = calm k db; kafka = kafka; log = log }) in
          (pending_rows v.store.db.outbox ≡ []) × AllDelivered Taken topic v.kafka v.store.db
    run_publisher-empties Taken n k db kafka log durable valid before enough =
        let w : Env Session K = record { store = calm k db; kafka = kafka; log = log } in
        (
          rounds-Empties n k db w refl valid.outbox_keyed valid.outbox_ordered enough,
          (run_publisher-Publishing durable topic (rounds n) w (record {
            sound = Reach-Sound (calm k db) refl valid (λ i d. Reach.here);
            quiet = λ i d id. NoNewer-refl (outbox_row id d);
            delivered = before;
          })).delivered,
        )
