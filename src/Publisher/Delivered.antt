-- ===== src/Publisher/Delivered.antt =====
-- The publisher over the Postgres store (cmd/publisher/main.go), and what the broker has of the
-- published rows.
use go_stripe_webhook_k8s.Base.{
  String, ◌≡◌, refl, subst, sym, inl, inr, Bool, true, false, Option, none, some, List, [], ◌∷◌,
  string_eq, All,
}
use go_stripe_webhook_k8s.Go.{Result, ok, err}
use go_stripe_webhook_k8s.Sql.Laws.{row_of-key, row_of-covers}
use go_stripe_webhook_k8s.Store.Schema.{
  Db, OutboxRow, OutboxRecord, outbox_published, outbox_pending,
}
use go_stripe_webhook_k8s.Store.Statements.{outbox_row}
use go_stripe_webhook_k8s.Store.Driver.{Session, arrive}
use go_stripe_webhook_k8s.Store.Postgres
use go_stripe_webhook_k8s.Store.Rely.{Rely}
use go_stripe_webhook_k8s.Store.Guarantee.{next_pending_outbox-Keeps, mark_outbox_published-Keeps}
use go_stripe_webhook_k8s.Store.Valid.{KeepsValid-Respects, IsValid, row_of-All, update_where-All}
use go_stripe_webhook_k8s.Store.Evolves.{Evolves-Respects, OutboxLe}
use go_stripe_webhook_k8s.Store.Sound.{Sound-after, arrive-Sound, arrive-Evolves}
use go_stripe_webhook_k8s.Store.Outbox.{
  NextAnswer, oldest-row, next_pending_outbox-oldest, marked_db, mark_outbox_published-writes,
}
use go_stripe_webhook_k8s.Publisher.{
  ProducerRecord, KafkaProducer, Env, Next, outbox_record, round, run_publisher,
}
use go_stripe_webhook_k8s.Publisher.Outbox.{
  postgres, IsPublished, NoNewer, PublishesNothing, IsDurable, row_record, IsDelivered,
  AllDelivered, Publishing,
}
use go_stripe_webhook_k8s.Publisher.Laws.{
  RoundOutcome, unread, idle, refused, unmarked, lost_row, published, round-outcome,
}

All-map :
    {A : Type 0} (P Q : A → Type 0) → ((a : A) → P a → Q a) → (xs : List A) → All P xs → All Q xs
All-map P Q f [] h = tt
All-map P Q f (x ∷ xs) h = (f x h.0, All-map P Q f xs h.1)

module _ {K : Type 0} {producer : KafkaProducer K} {Taken : ProducerRecord → K → Type 0}
    (durable : IsDurable producer Taken) (topic : String) where
  published-Taken :
      (id : String) (k : K) (a : Db) (r : OutboxRecord) (o : Option OutboxRecord)
      → AllDelivered Taken topic k a
      → outbox_row id a ≡ o
      → r.event_id ≡ id
      → IsPublished r.payload o
      → Taken (row_record topic r) k
  published-Taken id k a r none h found named pub_ = absurd pub_
  published-Taken id k a r (some q) h found named (status, same) =
      let taken : Taken (row_record topic q) k =
        row_of-All (λ x. x.event_id) (IsDelivered Taken topic k) id a.outbox h found status in
      rw (named, sym same, sym (row_of-key (λ x. x.event_id) id a.outbox q found)) taken

  arrive_delivered :
      (s : Session) (k : K) → Publishing Taken topic s k → AllDelivered Taken topic k (arrive s).db
  arrive_delivered s k h =
      row_of-covers (λ x. x.event_id) (IsDelivered Taken topic k) (arrive s).db.outbox
        (arrive-Sound s h.sound).valid.outbox_keyed
        (λ id r found published.
          published-Taken id k s.db r _ h.delivered refl
            (row_of-key (λ x. x.event_id) id (arrive s).db.outbox r found)
            (subst (NoNewer (outbox_row id s.db)) found (h.quiet s.used s.db id) published))

  marked_delivered :
      (id : String) (k : K) (db : Db)
      → IsValid db
      → ((r : OutboxRecord)
          → outbox_row id db ≡ some r
          → IsDelivered Taken topic k (record r { status = outbox_published }))
      → AllDelivered Taken topic k db
      → AllDelivered Taken topic k (marked_db id db)
  marked_delivered id k db valid taken h =
      update_where-All (λ r. r.event_id) (IsDelivered Taken topic k) id _ _ db.outbox
        valid.outbox_keyed (λ r found test before published. taken r found refl) h

  -- The broker still has what it had.
  produced-Publishing :
      (rec : ProducerRecord) (s : Session) (k k' : K) (r : Result (Unit {0}))
      → producer.produce_sync rec k ≡ (r, k')
      → Publishing Taken topic s k
      → Publishing Taken topic s k'
  produced-Publishing rec s k k' r e h = record {
    sound = h.sound;
    quiet = h.quiet;
    delivered =
        All-map _ _
          (λ x before published.
            subst (λ y. Taken (row_record topic x) y.1) e
              (durable.keeps rec (row_record topic x) k (before published)))
          s.db.outbox h.delivered;
  }

  next-Publishing :
      (s : Session) (k : K)
      → Publishing Taken topic s k
      → Publishing Taken topic (Postgres.next_pending_outbox s).1 k
        × NextAnswer (Postgres.next_pending_outbox s).0 (Postgres.next_pending_outbox s).1.db
  next-Publishing s k h =
      let (same, answer, on_time) = next_pending_outbox-oldest s in
      let left =
        (next_pending_outbox-Keeps KeepsValid-Respects.preorder).at s h.sound.closed
          h.sound.rely_valid in
      (
        record {
          sound =
              Sound-after _ s (next_pending_outbox-Keeps KeepsValid-Respects.preorder)
                (next_pending_outbox-Keeps Evolves-Respects.preorder) h.sound;
          quiet = subst (Rely PublishesNothing) (sym left.same_script) h.quiet;
          delivered = subst (AllDelivered Taken topic k) (sym same) (arrive_delivered s k h);
        },
        subst (NextAnswer (Postgres.next_pending_outbox s).0) (sym same) answer,
      )

  read-Publishing :
      (s : Session) (k : K) (x : Result (Option OutboxRow) × Session)
      → Postgres.next_pending_outbox s ≡ x
      → Publishing Taken topic s k
      → Publishing Taken topic x.1 k × NextAnswer x.0 x.1.db
  read-Publishing s k x e h =
      subst (λ y. Publishing Taken topic y.1 k × NextAnswer y.0 y.1.db) e (next-Publishing s k h)

  -- The row that is about to be marked still has the payload that the broker took.
  row-Taken :
      (best r : OutboxRecord) (k : K) (a : Db)
      → outbox_row best.event_id a ≡ some r
      → OutboxLe (some best) (outbox_row best.event_id a)
      → Taken (row_record topic best) k
      → Taken (row_record topic r) k
  row-Taken best r k a found le taken =
      let (same_id, same, status) = subst (OutboxLe (some best)) found le in
      let named = row_of-key (λ x. x.event_id) best.event_id a.outbox r found in
      rw (named, same) taken

  marked-Publishing :
      (best : OutboxRecord) (s : Session) (k : K)
      → outbox_row best.event_id s.db ≡ some best
      → Taken (row_record topic best) k
      → Publishing Taken topic s k
      → Publishing Taken topic (Postgres.mark_outbox_published best.event_id s).1 k
  marked-Publishing best s k found taken h =
      let keeps =
        mark_outbox_published-Keeps KeepsValid-Respects.preorder KeepsValid-Respects.publishes
          best.event_id in
      let left = keeps.at s h.sound.closed h.sound.rely_valid in
      let kept : OutboxLe (some best) (outbox_row best.event_id (arrive s).db) =
        subst (λ o. OutboxLe o (outbox_row best.event_id (arrive s).db)) found
          ((arrive-Evolves s h.sound).outbox_kept best.event_id) in
      let before = arrive_delivered s k h in
      record {
        sound =
            Sound-after _ s keeps
              (mark_outbox_published-Keeps Evolves-Respects.preorder Evolves-Respects.publishes
                best.event_id)
              h.sound;
        quiet = subst (Rely PublishesNothing) (sym left.same_script) h.quiet;
        delivered = elim (mark_outbox_published-writes best.event_id s) [
          | inl same ↦ subst (AllDelivered Taken topic k) (sym same) before
          | inr same ↦ subst (AllDelivered Taken topic k) (sym same) (
              marked_delivered best.event_id k (arrive s).db (arrive-Sound s h.sound).valid
                (λ r at status. row-Taken best r k (arrive s).db at kept taken) before)
        ];
      }

  -- The row that was read is marked, once the broker has its record.
  answered-Publishing :
      (row : OutboxRow) (s : Session) (k : K) (x : Result Bool × Session)
      → NextAnswer (ok (some row)) s.db
      → Taken (outbox_record topic row) k
      → Postgres.mark_outbox_published row.event_id s ≡ x
      → Publishing Taken topic s k
      → Publishing Taken topic x.1 k
  answered-Publishing row s k x (best, found, least, same) taken e h =
      subst (λ y. Publishing Taken topic y.1 k) e
        (rw same (
          marked-Publishing best s k
            (oldest-row outbox_pending s.db.outbox best h.sound.valid.outbox_keyed found)
            (subst (λ q. Taken (outbox_record topic q) k) same taken) h))

  round-Publishing :
      (w : Env Session K) (n : Next) (s : Session) (k : K)
      → RoundOutcome producer postgres topic w n s k
      → Publishing Taken topic w.store w.kafka
      → Publishing Taken topic s k
  round-Publishing w n s' k' (unread e s found) h = (read-Publishing w.store w.kafka _ found h).0
  round-Publishing w n s' k' (idle s found) h = (read-Publishing w.store w.kafka _ found h).0
  round-Publishing w n s' k' (refused row s e k found failed) h =
      produced-Publishing _ s w.kafka k (err e) failed (read-Publishing w.store w.kafka _ found h).0
  round-Publishing w n s' k' (unmarked row s1 k e s found taken marked) h =
      let (mid, answer) = read-Publishing w.store w.kafka _ found h in
      answered-Publishing row s1 k _ answer (durable.takes _ w.kafka k taken) marked
        (produced-Publishing _ s1 w.kafka k (ok tt) taken mid)
  round-Publishing w n s' k' (lost_row row s1 k s found taken marked) h =
      let (mid, answer) = read-Publishing w.store w.kafka _ found h in
      answered-Publishing row s1 k _ answer (durable.takes _ w.kafka k taken) marked
        (produced-Publishing _ s1 w.kafka k (ok tt) taken mid)
  round-Publishing w n s' k' (published row s1 k s found taken marked) h =
      let (mid, answer) = read-Publishing w.store w.kafka _ found h in
      answered-Publishing row s1 k _ answer (durable.takes _ w.kafka k taken) marked
        (produced-Publishing _ s1 w.kafka k (ok tt) taken mid)

  -- Whatever rounds the publisher makes, each published row of the outbox is one whose record, with
  -- its event as the key and its payload, the broker has, if it has the record of each row that is
  -- published at the start: on a valid database, with a durable broker, if the other clients keep
  -- the database valid, undo nothing and publish nothing, and however each call ends.
  pub run_publisher-Publishing :
      (rounds : List Bool) (w : Env Session K)
      → Publishing Taken topic w.store w.kafka
      → let v = run_publisher producer postgres topic rounds w in
        Publishing Taken topic v.store v.kafka
  unfolding run_publisher
  run_publisher-Publishing [] w h = h
  run_publisher-Publishing (true ∷ rounds) w h = h
  run_publisher-Publishing (false ∷ rounds) w h =
      run_publisher-Publishing rounds (round producer postgres topic w).1
        (round-Publishing w _ _ _ (round-outcome producer postgres topic w) h)
