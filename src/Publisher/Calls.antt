-- ===== src/Publisher/Calls.antt =====
-- The publisher's calls of the store (internal/store/postgres.go), on a database that nobody else
-- uses and whose calls succeed.
use go_stripe_webhook_k8s.Base.{
  ◌==◌, ℕ, ◌+◌, String, ◌≡◌, refl, true, none, some, List, ◌∷◌, string_eq, subst, ap, ◌∙◌,
}
use go_stripe_webhook_k8s.Go.{ok}
use go_stripe_webhook_k8s.Sql.{affected, IsKeyed}
use go_stripe_webhook_k8s.Sql.Laws.{affected_lem}
use go_stripe_webhook_k8s.Store.Schema.{Db, OutboxRecord, outbox_pending}
use go_stripe_webhook_k8s.Store.Statements.{oldest, select_next, update_outbox}
use go_stripe_webhook_k8s.Store.Lifecycle.{calm}
use go_stripe_webhook_k8s.Store.Outbox.{marked_db, oldest-row, Least, oldest-Least}
use go_stripe_webhook_k8s.Store.Postgres.{next_pending_outbox, mark_outbox_published, scanned_next}
use go_stripe_webhook_k8s.Store.Rows.{driver}
use go_stripe_webhook_k8s.Publisher.Pending.{pending_rows, first, oldest-Ascending}
use go_stripe_webhook_k8s.Store.Ordered.{Ascending}

module _ (k : ℕ) (db : Db) where
  pub next_none :
      oldest outbox_pending db.outbox ≡ none
      → next_pending_outbox (calm k db) ≡ (ok none, calm (k + 1) db)
  unfolding driver next_pending_outbox scanned_next select_next oldest
  next_none e = rw e refl

  pub next_some :
      (best : OutboxRecord)
      → oldest outbox_pending db.outbox ≡ some best
      → next_pending_outbox (calm k db)
        ≡ (ok (some (record { event_id = best.event_id; payload = best.payload })), calm (k + 1) db)
  unfolding driver next_pending_outbox scanned_next select_next oldest
  next_some best e = rw e refl

  pub mark_one :
      (id : String)
      → affected (λ (r : OutboxRecord). r.event_id) id (λ r. r.status == outbox_pending) db.outbox
        ≡ 1
      → mark_outbox_published id (calm k db) ≡ (ok true, calm (k + 1 + 1) (marked_db id db))
  unfolding driver mark_outbox_published update_outbox
  mark_one id e = rw e refl

  -- The first pending row is the one that is read, and marking it changes one row.
  pub first_hit :
      (best : OutboxRecord) (rest : List OutboxRecord)
      → IsKeyed (λ (r : OutboxRecord). r.event_id) db.outbox
      → Ascending db.outbox
      → pending_rows db.outbox ≡ best ∷ rest
      → (oldest outbox_pending db.outbox ≡ some best)
        × (affected
              (λ (r : OutboxRecord). r.event_id)
              best.event_id
              (λ r. r.status == outbox_pending)
              db.outbox
            ≡ 1)
  first_hit best rest keyed ascending found =
      let chosen : oldest outbox_pending db.outbox ≡ some best =
        oldest-Ascending db.outbox ascending ∙ ap first found in
      let row = oldest-row outbox_pending db.outbox best keyed chosen in
      let status =
        (subst (Least outbox_pending db.outbox) chosen (oldest-Least outbox_pending db.outbox)).0 in
      (
        chosen,
        affected_lem (λ (r : OutboxRecord). r.event_id) best.event_id
              (λ r. r.status == outbox_pending) db.outbox keyed
            ∙ rw (row, status) refl,
      )
