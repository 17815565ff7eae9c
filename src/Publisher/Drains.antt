-- ===== src/Publisher/Drains.antt =====
-- Runs of the publisher (cmd/publisher/main.go) that nothing disturbs: a broker that accepts, and a
-- database that nobody else uses and whose calls succeed.
use go_stripe_webhook_k8s.Base.{
  zero, suc, suc, ℕ, ◌+◌, ◌≤◌, String, ◌≡◌, refl, Bool, true, false, none, List, [], ◌∷◌, string_eq,
  subst, ap, ◌∙◌, arith,
}
use go_stripe_webhook_k8s.Go.{err, Result, ok}
use go_stripe_webhook_k8s.Log.{Entry}
use go_stripe_webhook_k8s.Sql.{IsKeyed}
use go_stripe_webhook_k8s.Sql.Laws.{update_where-IsKeyed}
use go_stripe_webhook_k8s.Store.Schema.{Db, OutboxRow, OutboxRecord, outbox_pending}
use go_stripe_webhook_k8s.Store.Statements.{oldest}
use go_stripe_webhook_k8s.Store.Ordered.{Ascending, marked, marked-Ascending}
use go_stripe_webhook_k8s.Store.Valid.{IsValid}
use go_stripe_webhook_k8s.Store.Driver.{Session}
use go_stripe_webhook_k8s.Store.Lifecycle.{calm}
use go_stripe_webhook_k8s.Store.Outbox.{marked_db}
use go_stripe_webhook_k8s.Store.Postgres.{mark_outbox_published}
use go_stripe_webhook_k8s.Publisher.{
  on_store, ProducerRecord, KafkaProducer, Env, Next, outbox_record, round, run_publisher,
  publish_outbox, after_publish, after_mark, produced,
}
use go_stripe_webhook_k8s.Publisher.Outbox.{postgres, row_record}
use go_stripe_webhook_k8s.Publisher.Calls.{next_none, next_some, mark_one, first_hit}
use go_stripe_webhook_k8s.Publisher.Pending.{
  pending_rows, first, oldest-Ascending, pending_rows-marked,
}

-- `n` rounds at whose start the context is not cancelled.
abbrev pub rounds : ℕ → List Bool
rounds zero = []
rounds (suc n) = false ∷ rounds n

abbrev pub count : List OutboxRecord → ℕ
count [] = 0
count (r ∷ rows) = count rows + 1

pub no_rows : (rows : List OutboxRecord) → count rows ≤ 0 → rows ≡ []
no_rows [] none_left = refl
no_rows (r ∷ rows) some_left = absurd (omega arith)

module _ {K : Type 0} (producer : KafkaProducer K) (topic : String) where
  -- The broker after it was sent the records of the rows, one by one.
  abbrev pub after_sending : List OutboxRecord → K → K
  after_sending [] k = k
  after_sending (r ∷ rows) k = after_sending rows (producer.produce_sync (row_record topic r) k).1

  -- The broker takes every record.
  abbrev pub Accepts : Type 0
  Accepts = (rec : ProducerRecord) (k : K) → (producer.produce_sync rec k).0 ≡ ok tt

  -- A round that reads a row which the broker takes and the store marks.
  abbrev pub Steps : Session → K → Next × Env Session K → Type 0
  Steps s k (n, v) = (v.store ≡ s) × (v.kafka ≡ k)

  marked_step :
      (row : OutboxRow) (w : Env Session K) (x : Result Bool × Session)
      → x.0 ≡ ok true
      → Steps x.1 w.kafka (after_mark producer postgres topic row (x.0, record w { store = x.1 }))
  marked_step row w (ok true, s) e = (refl, refl)
  marked_step row w (ok false, s) e = cc
  marked_step row w (err m, s) e = cc

  pub idle_round :
      (k : ℕ) (db : Db) (w : Env Session K)
      → w.store ≡ calm k db
      → oldest outbox_pending db.outbox ≡ none
      → Steps (calm (k + 1) db) w.kafka (round producer postgres topic w)
  unfolding round
  idle_round k db w here e = rw (here, next_none k db e) (refl, refl)

  publish_step :
      (row : OutboxRow) (w : Env Session K) (x : Result (Unit {0}) × K) (s : Session)
      → x.0 ≡ ok tt
      → mark_outbox_published row.event_id w.store ≡ (ok true, s)
      → Steps s x.1 (
          let (r, k) = produced producer postgres topic (outbox_record topic row) x in
          after_publish producer postgres topic row (r, record w { kafka = k }))
  publish_step row w (ok tt, k) s e marks =
      subst
        (λ t. Steps t k (
          after_mark producer postgres topic row (
            on_store producer postgres topic (mark_outbox_published row.event_id)
              (record w { kafka = k }))))
        (ap (λ x. x.1) marks)
        (marked_step row (record w { kafka = k }) (mark_outbox_published row.event_id w.store)
          (ap (λ x. x.0) marks))
  publish_step row w (err m, k) s e marks = cc

  pub marked_round :
      (k : ℕ) (db : Db) (w : Env Session K) (best : OutboxRecord) (rest : List OutboxRecord)
      → (producer.produce_sync (row_record topic best) w.kafka).0 ≡ ok tt
      → w.store ≡ calm k db
      → IsKeyed (λ (r : OutboxRecord). r.event_id) db.outbox
      → Ascending db.outbox
      → pending_rows db.outbox ≡ best ∷ rest
      → Steps
          (calm (k + 1 + 1 + 1) (marked_db best.event_id db))
          (producer.produce_sync (row_record topic best) w.kafka).1
          (round producer postgres topic w)
  unfolding round publish_outbox
  marked_round k db w best rest takes here keyed ascending found =
      let (chosen, hit) = first_hit k db best rest keyed ascending found in
      rw (here, next_some k db best chosen)
        (publish_step (record { event_id = best.event_id; payload = best.payload })
          (record w { store = calm (k + 1) db })
          (producer.produce_sync (row_record topic best) w.kafka) _ takes
          (mark_one (k + 1) db best.event_id hit))

  -- None is pending, and the broker was sent the records of these rows.
  abbrev pub Drained : List OutboxRecord → K → Env Session K → Type 0
  Drained rows kafka v =
      (pending_rows v.store.db.outbox ≡ []) × (v.kafka ≡ after_sending rows kafka)

  -- `n` rounds are enough for the tables of a session.
  abbrev Drains : ℕ → Type 0
  Drains n =
      (k : ℕ) (db : Db) (w : Env Session K)
      → w.store ≡ calm k db
      → IsKeyed (λ (r : OutboxRecord). r.event_id) db.outbox
      → Ascending db.outbox
      → count (pending_rows db.outbox) ≤ n
      → Drained (pending_rows db.outbox) w.kafka
          (run_publisher producer postgres topic (rounds n) w)

  module _ (accepts : Accepts) where
    -- One round more.
    step-Drains :
        (n : ℕ) (k : ℕ) (db : Db) (w : Env Session K) (rows : List OutboxRecord)
        → Drains n
        → w.store ≡ calm k db
        → IsKeyed (λ (r : OutboxRecord). r.event_id) db.outbox
        → Ascending db.outbox
        → pending_rows db.outbox ≡ rows
        → count rows ≤ suc n
        → Drained rows w.kafka
            (run_publisher producer postgres topic (rounds n) (round producer postgres topic w).1)
    step-Drains n k db w [] drains here keyed ascending found enough =
        let (store, kafka) =
          idle_round k db w here (oldest-Ascending db.outbox ascending ∙ ap first found) in
        let rest =
          drains (k + 1) db (round producer postgres topic w).1 store keyed ascending
            (rw found (omega arith)) in
        (rest.0, rest.1 ∙ rw (found, kafka) refl)
    step-Drains n k db w (best ∷ rows) drains here keyed ascending found enough =
        let (store, kafka) =
          marked_round k db w best rows (accepts (row_record topic best) w.kafka) here keyed
            ascending found in
        let left : pending_rows (marked db.now best.event_id db.outbox) ≡ rows =
          pending_rows-marked db.now best rows db.outbox keyed found in
        let rest =
          drains (k + 1 + 1 + 1) (marked_db best.event_id db) (round producer postgres topic w).1
            store
            (update_where-IsKeyed (λ (r : OutboxRecord). r.event_id) best.event_id _ _ (λ r. refl)
              db.outbox keyed)
            (marked-Ascending db.now best.event_id db.outbox ascending) (rw left (omega arith)) in
        (rest.0, rest.1 ∙ rw (left, kafka) refl)

    rounds-Drains : (n : ℕ) → Drains n
    unfolding run_publisher
    rounds-Drains zero k db w here keyed ascending enough =
        let none_left : pending_rows db.outbox ≡ [] = no_rows (pending_rows db.outbox) enough in
        (rw here none_left, rw none_left refl)
    rounds-Drains (suc n) k db w here keyed ascending enough =
        step-Drains n k db w (pending_rows db.outbox) (rounds-Drains n) here keyed ascending refl
          enough

    -- On a valid database that nobody else uses and whose calls succeed, with a broker that takes every
    -- record: after
    -- as many rounds as rows are pending, or more, no row is pending, and the broker was sent the
    -- records of the rows that were, once each and in their order, and nothing else.
    pub run_publisher-drains :
        (n k : ℕ) (db : Db) (kafka : K) (log : List Entry)
        → IsValid db
        → count (pending_rows db.outbox) ≤ n
        → Drained (pending_rows db.outbox) kafka (
            run_publisher producer postgres topic
              (rounds n)
              (record { store = calm k db; kafka = kafka; log = log }))
    run_publisher-drains n k db kafka log valid enough =
        rounds-Drains n k db (record { store = calm k db; kafka = kafka; log = log }) refl
          valid.outbox_keyed valid.outbox_ordered enough
