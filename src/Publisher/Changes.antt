-- ===== src/Publisher/Changes.antt =====
-- What the publisher (cmd/publisher) does to the tables in any run: no more than the statement of
-- `MarkOutboxPublished`, committed by itself.
use go_stripe_webhook_k8s.Base.{String, ◌≡◌, subst, Bool, true, false, List, [], ◌∷◌, Option}
use go_stripe_webhook_k8s.Go.{Result}
use go_stripe_webhook_k8s.Store.Schema.{Db, OutboxRow, outbox_published, outbox_pending}
use go_stripe_webhook_k8s.Store.Statements.{update_outbox}
use go_stripe_webhook_k8s.Store.Driver.{Session}
use go_stripe_webhook_k8s.Store.Postgres.{next_pending_outbox, mark_outbox_published}
use go_stripe_webhook_k8s.Store.Rely.{Guarantees, IsPreorder, Rely, Left, Left-then}
use go_stripe_webhook_k8s.Store.Guarantee.{next_pending_outbox-Keeps, mark_outbox_published-Keeps}
use go_stripe_webhook_k8s.Publisher.{KafkaProducer, Env, Next, round, run_publisher}
use go_stripe_webhook_k8s.Publisher.Outbox.{postgres}
use go_stripe_webhook_k8s.Publisher.Laws.{
  RoundOutcome, round-outcome, unread, idle, refused, unmarked, lost_row, published,
}

module _ {R : Db → Db → Type 0} (p : IsPreorder R)
    (publishes : (id : String) → Guarantees R (update_outbox outbox_published id outbox_pending))
    {K : Type 0} (producer : KafkaProducer K) (topic : String) (s : Session)
    (rely : Rely R s.script) where
  next-Left :
      (t : Session) (x : Result (Option OutboxRow) × Session)
      → next_pending_outbox t ≡ x
      → Left R s t
      → Left R s x.1
  next-Left t x e left =
      subst (λ y. Left R s y.1) e (Left-then p _ (next_pending_outbox-Keeps p) rely left)

  mark-Left :
      (id : String) (t : Session) (x : Result Bool × Session)
      → mark_outbox_published id t ≡ x
      → Left R s t
      → Left R s x.1
  mark-Left id t x e left =
      subst (λ y. Left R s y.1) e
        (Left-then p _ (mark_outbox_published-Keeps p publishes id) rely left)

  outcome-Left :
      (w : Env Session K) (n : Next) (t : Session) (k : K)
      → RoundOutcome producer postgres topic w n t k
      → Left R s w.store
      → Left R s t
  outcome-Left w n t k (unread e t' found) left = next-Left w.store _ found left
  outcome-Left w n t k (idle t' found) left = next-Left w.store _ found left
  outcome-Left w n t k (refused row t' e k' found failed) left = next-Left w.store _ found left
  outcome-Left w n t k (unmarked row t1 k' e t' found taken marked) left =
      mark-Left row.event_id t1 _ marked (next-Left w.store _ found left)
  outcome-Left w n t k (lost_row row t1 k' t' found taken marked) left =
      mark-Left row.event_id t1 _ marked (next-Left w.store _ found left)
  outcome-Left w n t k (published row t1 k' t' found taken marked) left =
      mark-Left row.event_id t1 _ marked (next-Left w.store _ found left)

  -- From where other steps have led, a run of the publisher leads on by such statements.
  pub run_publisher-Left :
      (rounds : List Bool) (w : Env Session K)
      → Left R s w.store
      → Left R s (run_publisher producer postgres topic rounds w).store
  unfolding run_publisher
  run_publisher-Left [] w left = left
  run_publisher-Left (true ∷ rounds) w left = left
  run_publisher-Left (false ∷ rounds) w left =
      run_publisher-Left rounds (round producer postgres topic w).1
        (outcome-Left w _ _ _ (round-outcome producer postgres topic w) left)
