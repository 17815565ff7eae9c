-- ===== src/Worker/Changes.antt =====
-- What the worker (cmd/worker) does to the tables, one record or all of its loop: no more than the
-- statements of its methods, each committed by itself.
use go_stripe_webhook_k8s.Base.{String, Bool, true, false, string_eq, ◌==◌, if◌then◌else◌}
use go_stripe_webhook_k8s.Go.{Bytes, Error, message, Result, ok, err}
use go_stripe_webhook_k8s.Engine.{Job}
use go_stripe_webhook_k8s.Store.Schema.{Db, CompletionClaim}
use go_stripe_webhook_k8s.Store.Driver.{Session}
use go_stripe_webhook_k8s.Store.Postgres.{
  claim_consumer_completion, mark_consumer_processed, mark_consumer_failed,
}
use go_stripe_webhook_k8s.Store.Rely.{Rely, Left, Left-then}
use go_stripe_webhook_k8s.Store.Guarantee.{
  Respects, mark_consumer_processed-Keeps, mark_consumer_failed-Keeps,
  claim_consumer_completion-Keeps,
}
use go_stripe_webhook_k8s.Worker.Downstream.{DownstreamClient}
use go_stripe_webhook_k8s.Worker.Record.{
  Env, KafkaRecord, on_store, delivered, after_processed, after_failed, after_job, after_claim,
  decoded, handle_job, handle_record, is_already_processed,
}
use go_stripe_webhook_k8s.Worker.Postgres.{postgres}

module _ {R : Db → Db → Type 0} (h : Respects R) {N : Type 0} (downstream : DownstreamClient N)
    (unmarshal : Bytes → Result Job) (consumer : String) (rec : KafkaRecord) (s : Session)
    (rely : Rely R s.script) where
  processed-Left :
      (j : Job) (x : Result Bool × Env Session N)
      → Left R s x.1.store
      → Left R s (after_processed postgres downstream unmarshal consumer rec j x).1.store
  processed-Left j (ok true, w) left = left
  processed-Left j (ok false, w) left = left
  processed-Left j (err e, w) left = left

  failed-Left :
      (j : Job) (e : Error) (x : Result Bool × Env Session N)
      → Left R s x.1.store
      → Left R s (after_failed postgres downstream unmarshal consumer rec j e x).1.store
  failed-Left j e (ok b, w) left = left
  failed-Left j e (err m, w) left = left

  job-Left :
      (j : Job) (d : Result (Unit {0})) (w : Env Session N)
      → Left R s w.store
      → Left R s
          (after_job postgres downstream unmarshal consumer rec j (delivered j (d, w))).1.store
  job-Left j (ok u) w left =
      let id = j.stripe_event_id in
      processed-Left j (on_store (mark_consumer_processed id consumer) (delivered j (ok u, w)).1)
        (Left-then h.preorder _ (mark_consumer_processed-Keeps h id consumer) rely left)
  job-Left j (err e) w left =
      let id = j.stripe_event_id in
      failed-Left j e
        (on_store (mark_consumer_failed id consumer (message e)) (delivered j (err e, w)).1)
        (Left-then h.preorder _ (mark_consumer_failed-Keeps h id consumer (message e)) rely left)

  if-Left :
      (b : Bool) (x y : Bool × Env Session N)
      → Left R s x.1.store
      → Left R s y.1.store
      → Left R s (if b then x else y).1.store
  if-Left true x y left right = left
  if-Left false x y left right = right

  claim-Left :
      (j : Job) (x : Result CompletionClaim × Env Session N)
      → Left R s x.1.store
      → Left R s (after_claim postgres downstream unmarshal consumer rec j x).1.store
  unfolding handle_job
  claim-Left j (err e, w) left = left
  claim-Left j (ok claim, w) left = if-Left (is_already_processed claim.action) _ _ left (
      job-Left j (downstream.deliver_job j w.net).0
        (record w { net = (downstream.deliver_job j w.net).1 }) left)

  decoded-Left :
      (r : Result Job) (w : Env Session N)
      → Left R s w.store
      → Left R s (decoded postgres downstream unmarshal consumer rec r w).1.store
  decoded-Left (err e) w left = left
  decoded-Left (ok j) w left =
      let id = j.stripe_event_id in
      if-Left (id == "") _ _ left (
        claim-Left j (on_store (claim_consumer_completion id consumer j.event_type) w) (
          Left-then h.preorder _ (claim_consumer_completion-Keeps h id consumer j.event_type) rely
            left))

  -- From where other steps have led, a record leads on by such statements.
  pub handle_record-Left :
      (w : Env Session N)
      → Left R s w.store
      → Left R s (handle_record postgres downstream unmarshal consumer rec w).1.store
  unfolding handle_record
  handle_record-Left w left = decoded-Left (unmarshal rec.value) w left
