-- ===== src/Tests/Publisher.antt =====
-- The publisher on the tests' inputs.
use mathlib.Core.List.{Memᴰ}
use go_stripe_webhook_k8s.Base.{
  ℕ, zero, suc, ◌≤◌, ◌<◌, ◌≡◌, string_eq, subst, Option, refl, arith, false, none, some, List, [],
  ◌∷◌,
}
use go_stripe_webhook_k8s.Go.{Error, Result, ok, err, plain}
use go_stripe_webhook_k8s.Store.Statements
use go_stripe_webhook_k8s.Store.Schema.{OutboxRecord}
use go_stripe_webhook_k8s.Store.Distinct.{pending-ne-published}
use go_stripe_webhook_k8s.Store.Driver.{Session}
use go_stripe_webhook_k8s.Store.Lifecycle.{calm}
use go_stripe_webhook_k8s.Publisher.{ProducerRecord, KafkaProducer, Env, round, run_publisher}
use go_stripe_webhook_k8s.Publisher.Laws.{RoundOutcome, round-outcome}
use go_stripe_webhook_k8s.Publisher.Drains.{rounds, Drained, run_publisher-drains}
use go_stripe_webhook_k8s.Publisher.Pending.{pending_rows}
use go_stripe_webhook_k8s.Publisher.Outbox.{NoNewer, postgres, IsDurable, Publishing, AllDelivered}
use go_stripe_webhook_k8s.Publisher.Patience.{run_publisher-empties}
use go_stripe_webhook_k8s.Publisher.Delivered.{run_publisher-Publishing}
use go_stripe_webhook_k8s.Tests.Data.{one_event, processing-Sound}

-- A broker that keeps all records.
abbrev pub broker : KafkaProducer (List ProducerRecord)
broker = record { produce_sync = λ rec k. (ok tt, rec ∷ k) }

abbrev Taken : ProducerRecord → List ProducerRecord → Type 0
Taken rec k = Memᴰ rec k

broker-IsDurable : IsDurable broker Taken
broker-IsDurable = record {
  takes = λ rec k k' e. subst (λ x. Memᴰ rec x.1) e (Memᴰ.head refl);
  keeps = λ rec other k m. Memᴰ.tail m;
}

abbrev publisher : Env Session (List ProducerRecord)
publisher = record { store = calm 0 (one_event "processing"); kafka = []; log = [] }

NoNewer-refl : (o : Option OutboxRecord) → NoNewer o o
NoNewer-refl none = tt
NoNewer-refl (some r) = λ e. (e, refl)

start : Publishing Taken "jobs" publisher.store publisher.kafka
start = record {
  sound = processing-Sound;
  quiet = λ n db id. NoNewer-refl (Statements.outbox_row id db);
  delivered = ((λ e. absurd (pending-ne-published e)), tt);
}

round-outcome_example :
    RoundOutcome broker postgres "jobs" publisher
      (round broker postgres "jobs" publisher).0
      (round broker postgres "jobs" publisher).1.store
      (round broker postgres "jobs" publisher).1.kafka
round-outcome_example = round-outcome broker postgres "jobs" publisher

run_publisher-Publishing_example :
    let v = run_publisher broker postgres "jobs" (false ∷ false ∷ []) publisher in
    Publishing Taken "jobs" v.store v.kafka
run_publisher-Publishing_example =
    run_publisher-Publishing broker-IsDurable "jobs" (false ∷ false ∷ []) publisher start

run_publisher-drains_example :
    Drained broker "jobs"
      (pending_rows (one_event "processing").outbox)
      []
      (run_publisher broker postgres "jobs" (rounds 3) publisher)
run_publisher-drains_example =
    run_publisher-drains broker "jobs" (λ rec k. refl) 3 0 (one_event "processing") [] []
      processing-Sound.valid (omega arith)

-- A broker that refuses as often as its first number says, and then keeps all records.
abbrev produce_late :
    ProducerRecord → ℕ × List ProducerRecord → Result (Unit {0}) × (ℕ × List ProducerRecord)
produce_late rec (zero, sent) = (ok tt, (0, rec ∷ sent))
produce_late rec (suc n, sent) = (err (plain "NOT_LEADER_FOR_PARTITION"), (n, sent))

abbrev late_broker : KafkaProducer (ℕ × List ProducerRecord)
late_broker = record { produce_sync = produce_late }

abbrev TakenLate : ProducerRecord → ℕ × List ProducerRecord → Type 0
TakenLate rec k = Memᴰ rec k.1

late_taken :
    (rec : ProducerRecord) (k : ℕ × List ProducerRecord)
    → (produce_late rec k).0 ≡ ok tt
    → (produce_late rec k).1.0 ≤ k.0
late_taken rec (zero, sent) e = omega arith
late_taken rec (suc n, sent) e = cc

late_refused :
    (rec : ProducerRecord) (k : ℕ × List ProducerRecord) (x : Error)
    → (produce_late rec k).0 ≡ err x
    → (produce_late rec k).1.0 < k.0
late_refused rec (zero, sent) x e = cc
late_refused rec (suc n, sent) x e = omega arith

late_takes :
    (rec : ProducerRecord) (k k' : ℕ × List ProducerRecord)
    → produce_late rec k ≡ (ok tt, k')
    → TakenLate rec k'
late_takes rec (zero, sent) k' e = subst (λ x. TakenLate rec x.1) e (Memᴰ.head refl)
late_takes rec (suc n, sent) k' e = cc

late_keeps :
    (rec other : ProducerRecord) (k : ℕ × List ProducerRecord)
    → TakenLate other k
    → TakenLate other (produce_late rec k).1
late_keeps rec other (zero, sent) m = Memᴰ.tail m
late_keeps rec other (suc n, sent) m = m

run_publisher-empties_example :
    let v =
      run_publisher late_broker postgres "jobs"
        (rounds 3)
        (record { store = calm 0 (one_event "processing"); kafka = (2, []); log = [] }) in
    (pending_rows v.store.db.outbox ≡ []) × AllDelivered TakenLate "jobs" v.kafka v.store.db
run_publisher-empties_example =
    run_publisher-empties late_broker "jobs" (λ k. k.0)
      (record { taken = late_taken; refused = late_refused }) TakenLate 3 0 (one_event "processing")
      (2, []) [] (record { takes = late_takes; keeps = late_keeps }) processing-Sound.valid
      ((λ e. absurd (pending-ne-published e)), tt) (omega arith)
