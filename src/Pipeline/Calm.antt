-- ===== src/Pipeline/Calm.antt =====
-- Runs of the publisher (cmd/publisher/main.go), on tables that nobody else uses and that it leaves so.
use go_stripe_webhook_k8s.Base.{ℕ, String, ◌≡◌, refl, ◌∙◌, List, Bool, string_eq}
use go_stripe_webhook_k8s.Log.{Entry}
use go_stripe_webhook_k8s.Store.Schema.{Db, outbox_published, outbox_pending}
use go_stripe_webhook_k8s.Store.Statements.{update_outbox}
use go_stripe_webhook_k8s.Store.Driver.{Session}
use go_stripe_webhook_k8s.Store.Rely.{IsPreorder, Guarantees, Left, Left-refl}
use go_stripe_webhook_k8s.Store.Valid.{IsValid, KeepsValid-Respects}
use go_stripe_webhook_k8s.Store.Lifecycle.{calm}
use go_stripe_webhook_k8s.Store.Fresh.{calm-eta}
use go_stripe_webhook_k8s.Publisher.{KafkaProducer, Env, run_publisher}
use go_stripe_webhook_k8s.Publisher.Outbox
use go_stripe_webhook_k8s.Publisher.Changes.{run_publisher-Left}

-- Validity is not lost and the completions are left alone.
abbrev Quiet : Db → Db → Type 0
Quiet a b = (IsValid a → IsValid b) × (b.completions ≡ a.completions)

Quiet-IsPreorder : IsPreorder Quiet
Quiet-IsPreorder = record {
  reflexive = λ a. (λ v. v, refl);
  transitive = λ a b c p q. (λ v. q.0 (p.0 v), q.1 ∙ p.1);
}

update_outbox-Quiet :
    (id : String) → Guarantees Quiet (update_outbox outbox_published id outbox_pending)
unfolding update_outbox
update_outbox-Quiet id db = (KeepsValid-Respects.publishes id db, refl)

-- The session after a run of the publisher, on tables that nobody else uses.
abbrev pub Calm : Db → Session → Type 0
Calm db s = (calm s.used s.db ≡ s) × IsValid s.db × (s.db.completions ≡ db.completions)

pub run_publisher-Calm :
    {K : Type 0} (producer : KafkaProducer K) (topic : String) (rounds : List Bool) (k : ℕ)
    (db : Db) (kafka : K) (log : List Entry)
    → IsValid db
    → Calm db
        (run_publisher producer Outbox.postgres topic rounds
          (record { store = calm k db; kafka = kafka; log = log })).store
run_publisher-Calm producer topic rounds k db kafka log valid =
    let start = calm k db in
    let w : Env Session _ = record { store = start; kafka = kafka; log = log } in
    let left : Left Quiet start (run_publisher producer Outbox.postgres topic rounds w).store =
      run_publisher-Left Quiet-IsPreorder update_outbox-Quiet producer topic start
        (λ n d. Quiet-IsPreorder.reflexive d) rounds w
        (Left-refl Quiet-IsPreorder start start refl refl refl refl) in
    (calm-eta k db _ left.closed left.same_script, left.related.0 valid, left.related.1)
