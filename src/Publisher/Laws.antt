-- ===== src/Publisher/Laws.antt =====
-- How a round of the publisher can end, over any store and any broker.
use go_stripe_webhook_k8s.Base.{String, ◌≡◌, refl, Bool, true, false, Option, none, some}
use go_stripe_webhook_k8s.Go.{Error, Result, ok, err}
use go_stripe_webhook_k8s.Store.Schema.{OutboxRow}
use go_stripe_webhook_k8s.Publisher.{
  KafkaProducer, OutboxStore, Env, Next, again, sleep, outbox_record, round, publish_outbox,
  after_next, after_publish, after_mark, produced,
}

-- What a round did from `w`, how it goes on, and what it left: no row was found; the broker refused
-- the row's record and nothing was marked; or the broker took it, and then the row was marked.
pub data RoundOutcome {S K : Type 0} (producer : KafkaProducer K) (st : OutboxStore S)
    (topic : String) (w : Env S K) : Next → S → K → Type 0 where
  unread :
      (e : Error) (s : S)
      → st.next_pending_outbox w.store ≡ (err e, s)
      → RoundOutcome producer st topic w sleep s w.kafka
  idle :
      (s : S)
      → st.next_pending_outbox w.store ≡ (ok none, s)
      → RoundOutcome producer st topic w sleep s w.kafka
  refused :
      (row : OutboxRow) (s : S) (e : Error) (k : K)
      → st.next_pending_outbox w.store ≡ (ok (some row), s)
      → producer.produce_sync (outbox_record topic row) w.kafka ≡ (err e, k)
      → RoundOutcome producer st topic w sleep s k
  unmarked :
      (row : OutboxRow) (s : S) (k : K) (e : Error) (s' : S)
      → st.next_pending_outbox w.store ≡ (ok (some row), s)
      → producer.produce_sync (outbox_record topic row) w.kafka ≡ (ok tt, k)
      → st.mark_outbox_published row.event_id s ≡ (err e, s')
      → RoundOutcome producer st topic w sleep s' k
  lost_row :
      (row : OutboxRow) (s : S) (k : K) (s' : S)
      → st.next_pending_outbox w.store ≡ (ok (some row), s)
      → producer.produce_sync (outbox_record topic row) w.kafka ≡ (ok tt, k)
      → st.mark_outbox_published row.event_id s ≡ (ok false, s')
      → RoundOutcome producer st topic w sleep s' k
  published :
      (row : OutboxRow) (s : S) (k : K) (s' : S)
      → st.next_pending_outbox w.store ≡ (ok (some row), s)
      → producer.produce_sync (outbox_record topic row) w.kafka ≡ (ok tt, k)
      → st.mark_outbox_published row.event_id s ≡ (ok true, s')
      → RoundOutcome producer st topic w again s' k

module _ {S K : Type 0} (producer : KafkaProducer K) (st : OutboxStore S) (topic : String)
    (w : Env S K) where
  abbrev Outcome : Next × Env S K → Type 0
  Outcome (n, v) = RoundOutcome producer st topic w n v.store v.kafka

  mark-Outcome :
      (row : OutboxRow) (s : S) (v : Env S K) (x : Result Bool × S)
      → st.next_pending_outbox w.store ≡ (ok (some row), s)
      → producer.produce_sync (outbox_record topic row) w.kafka ≡ (ok tt, v.kafka)
      → st.mark_outbox_published row.event_id s ≡ x
      → Outcome (after_mark producer st topic row (x.0, record v { store = x.1 }))
  mark-Outcome row s v (ok true, s') found taken marked =
      published row s v.kafka s' found taken marked
  mark-Outcome row s v (ok false, s') found taken marked =
      lost_row row s v.kafka s' found taken marked
  mark-Outcome row s v (err e, s') found taken marked =
      unmarked row s v.kafka e s' found taken marked

  publish-Outcome :
      (row : OutboxRow) (s : S) (x : Result (Unit {0}) × K)
      → st.next_pending_outbox w.store ≡ (ok (some row), s)
      → producer.produce_sync (outbox_record topic row) w.kafka ≡ x
      → let (r, k) = produced producer st topic (outbox_record topic row) x in
        Outcome (after_publish producer st topic row (r, record w { store = s; kafka = k }))
  publish-Outcome row s (err e, k) found taken = refused row s e k found taken
  publish-Outcome row s (ok u, k) found taken =
      mark-Outcome row s (record w { store = s; kafka = k })
        (st.mark_outbox_published row.event_id s) found taken refl

  next-Outcome :
      (x : Result (Option OutboxRow) × S)
      → st.next_pending_outbox w.store ≡ x
      → Outcome (after_next producer st topic (x.0, record w { store = x.1 }))
  unfolding publish_outbox
  next-Outcome (err e, s) found = unread e s found
  next-Outcome (ok none, s) found = idle s found
  next-Outcome (ok (some row), s) found =
      publish-Outcome row s (producer.produce_sync (outbox_record topic row) w.kafka) found refl

  -- A round of the publisher ends in one of six ways, over any store and any broker: it marks the
  -- row that it read only after the broker has taken the record of that row, it does not touch the
  -- store after a broker that refused, and it goes on at once only if the row was marked.
  pub round-outcome :
      RoundOutcome producer st topic w
        (round producer st topic w).0
        (round producer st topic w).1.store
        (round producer st topic w).1.kafka
  unfolding round
  round-outcome = next-Outcome (st.next_pending_outbox w.store) refl
