-- ===== src/Store/Guarantee.antt =====
-- Methods of internal/store/postgres.go and the relations that their statements respect.
use go_stripe_webhook_k8s.Base.{ℕ, String, arith}
use go_stripe_webhook_k8s.Go.{Bytes, Result, ok, err}
use go_stripe_webhook_k8s.Store.Schema.{
  Db, completion_processing, completion_processed, completion_failed, outbox_published,
  outbox_pending,
}
use go_stripe_webhook_k8s.Store.Statements.{
  select_status, select_outbox, select_next, update_outbox, insert_completion, select_completion,
  retry_completion, reclaim_completion, update_processed, update_failed,
}
use go_stripe_webhook_k8s.Store.Postgres.{
  status, next_pending_outbox, mark_outbox_published, reclaim, claim_inserted,
  claim_consumer_completion, mark_consumer_processed, mark_consumer_failed, scanned_status,
  scanned_next,
}
use go_stripe_webhook_k8s.Store.Rely.{IsPreorder, Guarantees, Keeps, pure-Keeps, keeps_rules}

-- The statements by which the autocommitted methods change the tables respect `R`.
pub record Respects (R : Db → Db → Type 0) : Type 0 where
  pub preorder : IsPreorder R
  pub inserts :
      (id consumer event_type : String)
      → Guarantees R (insert_completion id consumer event_type completion_processing)
  pub retries :
      (id consumer : String) → Guarantees R (retry_completion id consumer completion_processing)
  pub reclaims :
      (id consumer : String)
      → Guarantees R (reclaim_completion completion_processing id consumer completion_failed)
  pub processes :
      (id consumer : String)
      → Guarantees R (update_processed completion_processed id consumer completion_processing)
  pub fails :
      (msg id consumer : String)
      → Guarantees R (update_failed completion_failed msg id consumer completion_processing)
  pub publishes : (id : String) → Guarantees R (update_outbox outbox_published id outbox_pending)

-- The queries, and the methods that make no more of them.
module _ {R : Db → Db → Type 0} (p : IsPreorder R) where
  select_status-Guarantees : (id : String) → Guarantees R (select_status id)
  unfolding select_status
  select_status-Guarantees id db = ground (arith, p.reflexive db)

  select_outbox-Guarantees : (id : String) → Guarantees R (select_outbox id)
  unfolding select_outbox
  select_outbox-Guarantees id db = ground (arith, p.reflexive db)

  select_next-Guarantees : (old : String) → Guarantees R (select_next old)
  unfolding select_next
  select_next-Guarantees old db = ground (arith, p.reflexive db)

  pub select_completion-Guarantees :
      (id consumer : String) → Guarantees R (select_completion id consumer)
  unfolding select_completion
  select_completion-Guarantees id consumer db = ground (arith, p.reflexive db)

  scanned_next-Keeps : (scan : Result (String × Bytes)) → Keeps R (scanned_next scan)
  unfolding scanned_next
  scanned_next-Keeps (ok row) = pure-Keeps p _
  scanned_next-Keeps (err e) = search (keeps_rules, p)

  pub next_pending_outbox-Keeps : Keeps R next_pending_outbox
  unfolding next_pending_outbox
  next_pending_outbox-Keeps =
      search (keeps_rules, p, select_next-Guarantees, scanned_next-Keeps) depth 9

  scanned_status-Keeps : (scan : Result String) → Keeps R (scanned_status scan)
  unfolding scanned_status
  scanned_status-Keeps (ok row) = pure-Keeps p _
  scanned_status-Keeps (err e) = search (keeps_rules, p)

  pub status-Keeps : (id : String) → Keeps R (status id)
  unfolding status
  status-Keeps id = search (keeps_rules, p, select_status-Guarantees, scanned_status-Keeps) depth 9

  pub mark_outbox_published-Keeps :
      ((id : String) → Guarantees R (update_outbox outbox_published id outbox_pending))
      → (id : String) → Keeps R (mark_outbox_published id)
  unfolding mark_outbox_published
  mark_outbox_published-Keeps publishes id = search (keeps_rules, p, publishes) depth 9

module _ {R : Db → Db → Type 0} (h : Respects R) where
  pub mark_consumer_processed-Keeps :
      (id consumer : String) → Keeps R (mark_consumer_processed id consumer)
  unfolding mark_consumer_processed
  mark_consumer_processed-Keeps id consumer = search (keeps_rules, h.preorder, h.processes) depth 9

  pub mark_consumer_failed-Keeps :
      (id consumer msg : String) → Keeps R (mark_consumer_failed id consumer msg)
  unfolding mark_consumer_failed
  mark_consumer_failed-Keeps id consumer msg = search (keeps_rules, h.preorder, h.fails) depth 9

  reclaim-Keeps :
      (id consumer state : String) (attempts : ℕ) → Keeps R (reclaim id consumer state attempts)
  unfolding reclaim
  reclaim-Keeps id consumer state attempts =
      search (keeps_rules, h.preorder, h.retries, h.reclaims) depth 9

  pub claim_inserted-Keeps :
      (id consumer : String) (res : ℕ) → Keeps R (claim_inserted id consumer res)
  unfolding claim_inserted
  claim_inserted-Keeps id consumer res =
      search (keeps_rules, h.preorder, select_completion-Guarantees h.preorder, reclaim-Keeps) depth
        9

  pub claim_consumer_completion-Keeps :
      (id consumer event_type : String) → Keeps R (claim_consumer_completion id consumer event_type)
  unfolding claim_consumer_completion
  claim_consumer_completion-Keeps id consumer event_type =
      search (keeps_rules, h.preorder, h.inserts, claim_inserted-Keeps) depth 9
