-- ===== src/Store/Ordered.antt =====
-- An outbox whose rows are in the order of their ids, as the sequence gives them out, and what marking
-- one of them leaves (internal/store/postgres.go).
use go_stripe_webhook_k8s.Base.{
  ℕ, ◌<◌, String, Bool, true, false, List, [], ◌∷◌, ◌++◌, ◌==◌, string_eq, All, if◌then◌else◌,
}
use go_stripe_webhook_k8s.Sql.{update_where}
use go_stripe_webhook_k8s.Store.Schema.{OutboxRecord, outbox_pending, outbox_published}
use go_stripe_webhook_k8s.Store.Statements.{set_outbox}

-- Each row has a greater id than the rows before it.
abbrev pub Ascending : List OutboxRecord → Type 0
Ascending [] = Unit
Ascending (r ∷ rows) = All (λ (q : OutboxRecord). r.id < q.id) rows × Ascending rows

-- The rows after the one of the event was marked.
abbrev pub marked : ℕ → String → List OutboxRecord → List OutboxRecord
marked now id rows =
    update_where (λ (r : OutboxRecord). r.event_id) id (λ r. r.status == outbox_pending)
      (set_outbox outbox_published now) rows

-- A row keeps its id.
marked_id :
    (a : ℕ) (b : Bool) (now : ℕ) (r : OutboxRecord)
    → a < r.id
    → a < (if b then set_outbox outbox_published now r else r).id
marked_id a true now r h = h
marked_id a false now r h = h

marked_after :
    (a now : ℕ) (id : String) (rows : List OutboxRecord)
    → All (λ (q : OutboxRecord). a < q.id) rows
    → All (λ (q : OutboxRecord). a < q.id) (marked now id rows)
unfolding update_where
marked_after a now id [] h = tt
marked_after a now id (r ∷ rows) h = (marked_id a _ now r h.0, marked_after a now id rows h.1)

marked_first :
    (b : Bool) (now : ℕ) (r : OutboxRecord) (rows : List OutboxRecord)
    → All (λ (q : OutboxRecord). r.id < q.id) rows
    → All
        (λ (q : OutboxRecord). (if b then set_outbox outbox_published now r else r).id < q.id)
        rows
marked_first true now r rows h = h
marked_first false now r rows h = h

pub marked-Ascending :
    (now : ℕ) (id : String) (rows : List OutboxRecord)
    → Ascending rows
    → Ascending (marked now id rows)
unfolding update_where
marked-Ascending now id [] h = tt
marked-Ascending now id (r ∷ rows) h =
    (marked_first _ now r _ (marked_after r.id now id rows h.0), marked-Ascending now id rows h.1)

All-ids-append :
    (a : ℕ) (rows : List OutboxRecord) (r : OutboxRecord)
    → All (λ (q : OutboxRecord). a < q.id) rows
    → a < r.id
    → All (λ (q : OutboxRecord). a < q.id) (rows ++ r ∷ [])
All-ids-append a [] r h k = (k, tt)
All-ids-append a (q ∷ rows) r h k = (h.0, All-ids-append a rows r h.1 k)

-- A row with an id above all others goes to the end.
pub Ascending-append :
    (rows : List OutboxRecord) (r : OutboxRecord)
    → Ascending rows
    → All (λ (q : OutboxRecord). q.id < r.id) rows
    → Ascending (rows ++ r ∷ [])
Ascending-append [] r h k = (tt, tt)
Ascending-append (q ∷ rows) r h k =
    (All-ids-append q.id rows r h.0 k.0, Ascending-append rows r h.1 k.1)
