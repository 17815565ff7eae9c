-- ===== src/Store/Evolves.antt =====
-- The order of tables in which an event stays in the ledger, an outbox row keeps its id and payload
-- and is not unpublished, and a processed completion is final, while attempts only grow. TruncateLedger,
-- which clears the tables for tests, is outside of it.
use mathlib.Core.Option
use go_stripe_webhook_k8s.Base.{
  ◌≤◌, String, ◌≡◌, ◌≢◌, refl, ◌∙◌, Bool, Option, none, some, ◌==◌, string_eq, pair_eq, ==-iff,
  arith,
}
use go_stripe_webhook_k8s.Sql.Laws.{row_of-insert_new, row_of-update_where, or_row}
use go_stripe_webhook_k8s.Store.Schema.{
  Db, LedgerRecord, OutboxRecord, CompletionRecord, completion_key, outbox_pending,
  outbox_published, completion_processing, completion_processed, completion_failed,
}
use go_stripe_webhook_k8s.Store.Statements.{
  retry_row, processed_row, failed_row, reclaim_row, ledger_row, outbox_row, completion_row,
  update_outbox, insert_completion, retry_completion, reclaim_completion, update_processed,
  update_failed, set_completion, set_outbox,
}
use go_stripe_webhook_k8s.Store.Rely.{IsPreorder, Guarantees, raise_attempts-Ends}
use go_stripe_webhook_k8s.Store.Distinct.{processing-ne-processed, failed-ne-processed}
use go_stripe_webhook_k8s.Store.Guarantee.{Respects}

abbrev pub LedgerLe : Option LedgerRecord → Option LedgerRecord → Type 0
LedgerLe none o = Unit
LedgerLe (some r) none = ⊥
LedgerLe (some r) (some r') = r'.event_type ≡ r.event_type

abbrev pub OutboxLe : Option OutboxRecord → Option OutboxRecord → Type 0
OutboxLe none o = Unit
OutboxLe (some r) none = ⊥
OutboxLe (some r) (some r') =
    (r'.id ≡ r.id)
    × (r'.payload ≡ r.payload)
    × (r.status ≡ outbox_published → r'.status ≡ outbox_published)

abbrev pub CompletionLe : Option CompletionRecord → Option CompletionRecord → Type 0
CompletionLe none o = Unit
CompletionLe (some r) none = ⊥
CompletionLe (some r) (some r') =
    (r.status ≡ completion_processed → r' ≡ r) × (r.attempt_count ≤ r'.attempt_count)

pub record Evolves (a b : Db) : Type 0 where
  pub ledger_kept : (id : String) → LedgerLe (ledger_row id a) (ledger_row id b)
  pub outbox_kept : (id : String) → OutboxLe (outbox_row id a) (outbox_row id b)
  pub completions_kept :
      (id consumer : String)
      → CompletionLe (completion_row id consumer a) (completion_row id consumer b)

LedgerLe-refl : (o : Option LedgerRecord) → LedgerLe o o
LedgerLe-refl none = tt
LedgerLe-refl (some r) = refl

OutboxLe-refl : (o : Option OutboxRecord) → OutboxLe o o
OutboxLe-refl none = tt
OutboxLe-refl (some r) = (refl, refl, λ h. h)

CompletionLe-refl : (o : Option CompletionRecord) → CompletionLe o o
CompletionLe-refl none = tt
CompletionLe-refl (some r) = (λ h. refl, omega arith)

LedgerLe-trans : (a b c : Option LedgerRecord) → LedgerLe a b → LedgerLe b c → LedgerLe a c
LedgerLe-trans none b c p q = tt
LedgerLe-trans (some x) (some y) (some z) p q = q ∙ p
LedgerLe-trans (some x) (some y) none p q = q
LedgerLe-trans (some x) none c p q = absurd p

OutboxLe-trans : (a b c : Option OutboxRecord) → OutboxLe a b → OutboxLe b c → OutboxLe a c
OutboxLe-trans none b c p q = tt
OutboxLe-trans (some x) (some y) (some z) p q = ground arith
OutboxLe-trans (some x) (some y) none p q = q
OutboxLe-trans (some x) none c p q = absurd p

CompletionLe-trans :
    (a b c : Option CompletionRecord) → CompletionLe a b → CompletionLe b c → CompletionLe a c
CompletionLe-trans none b c p q = tt
CompletionLe-trans (some x) (some y) (some z) p q = (λ h. q.0 (rw (p.0 h) h) ∙ p.0 h, omega arith)
CompletionLe-trans (some x) (some y) none p q = q
CompletionLe-trans (some x) none c p q = absurd p

Evolves-IsPreorder : IsPreorder Evolves
Evolves-IsPreorder = record {
  reflexive = λ a. record {
    ledger_kept = λ id. LedgerLe-refl _;
    outbox_kept = λ id. OutboxLe-refl _;
    completions_kept = λ id consumer. CompletionLe-refl _;
  };
  transitive = λ a b c p q. record {
    ledger_kept = λ id. LedgerLe-trans _ _ _ (p.ledger_kept id) (q.ledger_kept id);
    outbox_kept = λ id. OutboxLe-trans _ _ _ (p.outbox_kept id) (q.outbox_kept id);
    completions_kept = λ id consumer.
        CompletionLe-trans _ _ _ (p.completions_kept id consumer) (q.completions_kept id consumer);
  };
}

map-Le :
    (g : CompletionRecord → CompletionRecord)
    → ((r : CompletionRecord)
        → (r.status ≡ completion_processed → g r ≡ r) × (r.attempt_count ≤ (g r).attempt_count))
    → (o : Option CompletionRecord) → CompletionLe o (Option.map g o)
map-Le g h none = tt
map-Le g h (some r) = h r

or_row-Le :
    (o : Option CompletionRecord) (test : Bool) (r : CompletionRecord)
    → CompletionLe o (or_row o test r)
or_row-Le none test r = tt
or_row-Le (some x) test r = CompletionLe-refl (some x)

-- An UPDATE of a completion that is not processed, by which its attempts do not fall.
set_completion-Evolves :
    (id consumer old : String) (f : CompletionRecord → CompletionRecord) (db : Db)
    → old ≢ completion_processed
    → ((r : CompletionRecord) → completion_key (f r) ≡ completion_key r)
    → ((r : CompletionRecord) → r.attempt_count ≤ (f r).attempt_count)
    → Evolves db (set_completion id consumer old f db)
unfolding set_completion
set_completion-Evolves id consumer old f db unfinished keeps grows = record {
  ledger_kept = λ j. LedgerLe-refl _;
  outbox_kept = λ j. OutboxLe-refl _;
  completions_kept = λ j c.
      rw
        (row_of-update_where completion_key (id, consumer) (λ r. r.status == old) f keeps (j, c)
          db.completions)
        (map-Le _ (λ r. (λ final. ground (arith, ==-iff r.status old), ground (arith, grows r)))
          (completion_row j c db));
}

insert_completion-Evolves :
    (id consumer event_type : String)
    → Guarantees Evolves (insert_completion id consumer event_type completion_processing)
unfolding insert_completion
insert_completion-Evolves id consumer event_type db = record {
  ledger_kept = λ j. LedgerLe-refl _;
  outbox_kept = λ j. OutboxLe-refl _;
  completions_kept =
      λ j c. rw (row_of-insert_new completion_key (j, c)) (or_row-Le (completion_row j c db) _ _);
}

retry_completion-Evolves :
    (id consumer : String) → Guarantees Evolves (retry_completion id consumer completion_processing)
unfolding retry_completion retry_row
retry_completion-Evolves id consumer db =
    raise_attempts-Ends Evolves id consumer completion_processing retry_row db λ r found same below.
      set_completion-Evolves id consumer completion_processing (retry_row db.now) db
        processing-ne-processed (λ x. refl) (λ x. omega arith)

reclaim_completion-Evolves :
    (id consumer : String)
    → Guarantees Evolves (reclaim_completion completion_processing id consumer completion_failed)
unfolding reclaim_completion reclaim_row
reclaim_completion-Evolves id consumer db =
    raise_attempts-Ends Evolves id consumer completion_failed (reclaim_row completion_processing) db
      λ r found same below.
        set_completion-Evolves id consumer completion_failed
          (reclaim_row completion_processing db.now) db failed-ne-processed (λ x. refl)
          (λ x. omega arith)

update_processed-Evolves :
    (id consumer : String)
    → Guarantees Evolves (update_processed completion_processed id consumer completion_processing)
unfolding update_processed processed_row
update_processed-Evolves id consumer db =
    set_completion-Evolves id consumer completion_processing _ db processing-ne-processed
      (λ x. refl) (λ x. omega arith)

update_failed-Evolves :
    (msg id consumer : String)
    → Guarantees Evolves (update_failed completion_failed msg id consumer completion_processing)
unfolding update_failed failed_row
update_failed-Evolves msg id consumer db =
    set_completion-Evolves id consumer completion_processing _ db processing-ne-processed
      (λ x. refl) (λ x. omega arith)

map-OutboxLe :
    (g : OutboxRecord → OutboxRecord)
    → ((r : OutboxRecord) → OutboxLe (some r) (some (g r)))
    → (o : Option OutboxRecord) → OutboxLe o (Option.map g o)
map-OutboxLe g h none = tt
map-OutboxLe g h (some r) = h r

update_outbox-Evolves :
    (id : String) → Guarantees Evolves (update_outbox outbox_published id outbox_pending)
unfolding update_outbox
update_outbox-Evolves id db = record {
  ledger_kept = λ j. LedgerLe-refl _;
  outbox_kept = λ j.
      rw
        (row_of-update_where (λ r. r.event_id) id (λ r. r.status == outbox_pending)
          (set_outbox outbox_published db.now) (λ r. refl) j db.outbox)
        (map-OutboxLe _ (λ r. ground arith) (outbox_row j db));
  completions_kept = λ j c. CompletionLe-refl _;
}

-- No statement by which a method outside of a transaction changes the tables undoes what is final:
-- ledger rows stay, outbox rows keep their id and payload and stay published, and completions stay,
-- with no fewer attempts and unchanged once they are processed.
pub Evolves-Respects : Respects Evolves
Evolves-Respects = record {
  preorder = Evolves-IsPreorder;
  inserts = insert_completion-Evolves;
  retries = retry_completion-Evolves;
  reclaims = reclaim_completion-Evolves;
  processes = update_processed-Evolves;
  fails = update_failed-Evolves;
  publishes = update_outbox-Evolves;
}
