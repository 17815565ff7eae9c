-- ===== src/Worker/Calm.antt =====
-- Records at the worker (cmd/worker/main.go), on tables that nobody else uses and that it leaves so.
use go_stripe_webhook_k8s.Base.{◌<◌, String, ◌≡◌, ◌≢◌, refl, sym, ◌∙◌, subst, List, string_eq}
use go_stripe_webhook_k8s.Go.{Bytes, Result, ok}
use go_stripe_webhook_k8s.Log.{Entry}
use go_stripe_webhook_k8s.Engine.{Job}
use go_stripe_webhook_k8s.Store.Schema.{max_int}
use go_stripe_webhook_k8s.Store.Driver.{Session}
use go_stripe_webhook_k8s.Store.Rely.{Left-refl}
use go_stripe_webhook_k8s.Store.Valid.{IsValid, KeepsValid-Respects}
use go_stripe_webhook_k8s.Store.Lifecycle.{calm, phase, Phase, unknown, attempts}
use go_stripe_webhook_k8s.Store.Fresh.{calm-eta}
use go_stripe_webhook_k8s.Worker.Attempt.{Ends, work, handle_record-refines}
use go_stripe_webhook_k8s.Worker.Downstream.{DownstreamClient}
use go_stripe_webhook_k8s.Worker.Record.{KafkaRecord, handle_record}
use go_stripe_webhook_k8s.Worker.Postgres.{postgres}
use go_stripe_webhook_k8s.Worker.Changes.{handle_record-Left}

module _ {N : Type 0} (downstream : DownstreamClient N) (unmarshal : Bytes → Result Job)
    (consumer : String) where
  -- A record on a session that nobody disturbs, for an event in phase `p`.
  pub record-Ends :
      (rec : KafkaRecord) (j : Job) (s : Session) (p : Phase) (net : N) (log : List Entry)
      → unmarshal rec.value ≡ ok j
      → j.stripe_event_id ≢ ""
      → calm s.used s.db ≡ s
      → IsValid s.db
      → phase j.stripe_event_id consumer s.db ≡ p
      → p ≢ unknown
      → attempts p < max_int
      → Ends downstream unmarshal consumer rec j (work p net (downstream.deliver_job j net)) (
          handle_record postgres downstream unmarshal consumer rec
            (record { store = s; net = net; log = log }))
  record-Ends rec j s p net log read named eta valid current known room =
      subst
        (λ t. Ends downstream unmarshal consumer rec j (work p net (downstream.deliver_job j net)) (
          handle_record postgres downstream unmarshal consumer rec
            (record { store = t; net = net; log = log })))
        eta
        (subst
          (λ q.
            Ends downstream unmarshal consumer rec j (work q net (downstream.deliver_job j net)) (
              handle_record postgres downstream unmarshal consumer rec
                (record { store = calm s.used s.db; net = net; log = log })))
          current
          (handle_record-refines downstream unmarshal consumer rec j s.used s.db net log read named
            valid (λ e. known (sym current ∙ e))
            (subst (λ q. attempts q < max_int) (sym current) room)))

  -- What it leaves is such a session again.
  pub record-Calm :
      (rec : KafkaRecord) (s : Session) (net : N) (log : List Entry)
      → calm s.used s.db ≡ s
      → IsValid s.db
      → let t =
          (handle_record postgres downstream unmarshal consumer rec
            (record { store = s; net = net; log = log })).1.store in
        (calm t.used t.db ≡ t) × IsValid t.db
  record-Calm rec s net log eta valid =
      let start = calm s.used s.db in
      subst
        (λ s'.
          let t =
            (handle_record postgres downstream unmarshal consumer rec
              (record { store = s'; net = net; log = log })).1.store in
          (calm t.used t.db ≡ t) × IsValid t.db)
        eta
        (let left =
            handle_record-Left KeepsValid-Respects downstream unmarshal consumer rec start
              (λ n d v. v) (record { store = start; net = net; log = log })
              (Left-refl KeepsValid-Respects.preorder start start refl refl refl refl) in
          (calm-eta s.used s.db _ left.closed left.same_script, left.related valid))
