-- ===== src/Publisher/Outbox.antt =====
-- The publisher's store, and what it means that a broker has the records of the published rows.
use go_stripe_webhook_k8s.Base.{String, ◌≡◌, Option, none, some, string_eq, All}
use go_stripe_webhook_k8s.Go.{Bytes, ok}
use go_stripe_webhook_k8s.Store.Schema.{Db, OutboxRecord, outbox_published}
use go_stripe_webhook_k8s.Store.Statements.{outbox_row}
use go_stripe_webhook_k8s.Store.Driver.{Session}
use go_stripe_webhook_k8s.Store.Postgres
use go_stripe_webhook_k8s.Store.Rely.{Rely}
use go_stripe_webhook_k8s.Store.Sound.{Sound}
use go_stripe_webhook_k8s.Publisher.{ProducerRecord, KafkaProducer, OutboxStore, outbox_record}

-- `*store.Postgres` as the publisher's store.
abbrev pub postgres : OutboxStore Session
postgres = record {
  next_pending_outbox = Postgres.next_pending_outbox;
  mark_outbox_published = Postgres.mark_outbox_published;
}

-- The row is published, with this payload.
abbrev pub IsPublished : Bytes → Option OutboxRecord → Type 0
IsPublished payload none = ⊥
IsPublished payload (some r) = (r.status ≡ outbox_published) × (r.payload ≡ payload)

-- A row that is published was published before.
abbrev pub NoNewer : Option OutboxRecord → Option OutboxRecord → Type 0
NoNewer before none = Unit
NoNewer before (some r) = r.status ≡ outbox_published → IsPublished r.payload before

-- Another client publishes no row.
abbrev pub PublishesNothing : Db → Db → Type 0
PublishesNothing a b = (id : String) → NoNewer (outbox_row id a) (outbox_row id b)

-- A broker that has a record once it has answered without error, and from then on.
pub record IsDurable {K : Type 0} (producer : KafkaProducer K) (Taken : ProducerRecord → K → Type 0)
    : Type 0 where
  pub takes :
      (rec : ProducerRecord) (k k' : K) → producer.produce_sync rec k ≡ (ok tt, k') → Taken rec k'
  pub keeps :
      (rec other : ProducerRecord) (k : K)
      → Taken other k
      → Taken other (producer.produce_sync rec k).1

-- The record by which a row is published.
abbrev pub row_record : String → OutboxRecord → ProducerRecord
row_record topic r = outbox_record topic (record { event_id = r.event_id; payload = r.payload })

module _ {K : Type 0} (Taken : ProducerRecord → K → Type 0) (topic : String) where
  -- If the row is published, the broker has its record.
  abbrev pub IsDelivered : K → OutboxRecord → Type 0
  IsDelivered k r = r.status ≡ outbox_published → Taken (row_record topic r) k

  abbrev pub AllDelivered : K → Db → Type 0
  AllDelivered k db = All (IsDelivered k) db.outbox

  -- What the publisher keeps.
  pub record Publishing (s : Session) (k : K) : Type 0 where
    pub sound : Sound s
    pub quiet : Rely PublishesNothing s.script
    pub delivered : AllDelivered k s.db
