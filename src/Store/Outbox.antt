-- ===== src/Store/Outbox.antt =====
-- The outbox as the publisher sees it: `NextPendingOutbox` and `MarkOutboxPublished`.
use go_stripe_webhook_k8s.Base.{
  ℕ, ◌≤◌, String, ◌≡◌, ◌≢◌, refl, true, Option, none, some, List, [], ◌∷◌, ◌==◌, string_eq, ==-iff,
  ◌⊎◌, ltb, if◌then◌else◌, All, arith,
}
use go_stripe_webhook_k8s.Go.{Result, ok, err, is_ok}
use go_stripe_webhook_k8s.Sql.{row_of, IsKeyed, update_where}
use go_stripe_webhook_k8s.Store.Schema.{
  Db, OutboxRow, OutboxRecord, outbox_pending, outbox_published,
}
use go_stripe_webhook_k8s.Store.Statements.{oldest, select_next, update_outbox, set_outbox}
use go_stripe_webhook_k8s.Store.Driver.{Session, arrive, done}
use go_stripe_webhook_k8s.Store.Postgres.{next_pending_outbox, scanned_next, mark_outbox_published}
use go_stripe_webhook_k8s.Store.Rows.{driver}

-- The row of least id among those of the status, if there is one.
abbrev pub Least : String → List OutboxRecord → Option OutboxRecord → Type 0
Least state rows none = All (λ r. r.status ≢ state) rows
Least state rows (some best) =
    (best.status ≡ state) × All (λ r. r.status ≡ state → best.id ≤ r.id) rows

lower_bound :
    (state : String) (a b : ℕ) (rows : List OutboxRecord)
    → a ≤ b
    → All (λ r. r.status ≡ state → b ≤ r.id) rows
    → All (λ r. r.status ≡ state → a ≤ r.id) rows
lower_bound state a b [] le h = tt
lower_bound state a b (r ∷ rows) le h =
    (λ e. omega (arith, h.0 e), lower_bound state a b rows le h.1)

unbounded :
    (state : String) (a : ℕ) (rows : List OutboxRecord)
    → All (λ r. r.status ≢ state) rows
    → All (λ r. r.status ≡ state → a ≤ r.id) rows
unbounded state a [] h = tt
unbounded state a (r ∷ rows) h = (λ e. absurd (h.0 e), unbounded state a rows h.1)

pub oldest-Least :
    (state : String) (rows : List OutboxRecord) → Least state rows (oldest state rows)
unfolding oldest
oldest-Least state [] = tt
oldest-Least state (r ∷ rows) = at (oldest state rows) (oldest-Least state rows)
  where
    at :
        (o : Option OutboxRecord)
        → Least state rows o
        → Least state (r ∷ rows) (
            if r.status == state
            then elim o [
              | none ↦ some r
              | some best ↦ if ltb best.id r.id then some best else some r
            ]
            else o)
    at none h = ground (arith, ==-iff r.status state, unbounded state r.id rows)
    at (some best) h = ground (arith, ==-iff r.status state, lower_bound state r.id best.id rows)

-- On unique keys it is the row of its event.
pub oldest-row :
    (state : String) (rows : List OutboxRecord) (best : OutboxRecord)
    → IsKeyed (λ (r : OutboxRecord). r.event_id) rows
    → oldest state rows ≡ some best
    → row_of (λ (r : OutboxRecord). r.event_id) best.event_id rows ≡ some best
unfolding oldest row_of
oldest-row state [] best keyed found = cc
oldest-row state (r ∷ rows) best keyed found =
    ground (arith, oldest-row state rows best, ==-iff r.event_id best.event_id)

-- What `NextPendingOutbox` answers on the tables that it reads.
abbrev pub NextAnswer : Result (Option OutboxRow) → Db → Type 0
NextAnswer (err e) db = Unit
NextAnswer (ok none) db = Least outbox_pending db.outbox none
NextAnswer (ok (some row)) db =
    (best : OutboxRecord) × (oldest outbox_pending db.outbox ≡ some best)
    × Least outbox_pending db.outbox (some best)
    × (row ≡ record { event_id = best.event_id; payload = best.payload })

next_at :
    (s : Session) (o : Option OutboxRecord)
    → oldest outbox_pending (arrive s).db.outbox ≡ o
    → Least outbox_pending (arrive s).db.outbox o
    → ((next_pending_outbox s).1.db ≡ (arrive s).db)
      × NextAnswer (next_pending_outbox s).0 (arrive s).db
      × ((s.script s.used).reply ≡ done → is_ok (next_pending_outbox s).0 ≡ true)
unfolding driver next_pending_outbox scanned_next select_next
next_at s none e least = ground arith
next_at s (some best) e least = ground arith

-- `NextPendingOutbox` changes nothing and answers the pending row of least id, or none if no row is
-- pending; it answers an error only if its call fails.
pub next_pending_outbox-oldest :
    (s : Session)
    → ((next_pending_outbox s).1.db ≡ (arrive s).db)
      × NextAnswer (next_pending_outbox s).0 (arrive s).db
      × ((s.script s.used).reply ≡ done → is_ok (next_pending_outbox s).0 ≡ true)
next_pending_outbox-oldest s = next_at s _ refl (oldest-Least outbox_pending _)

-- The tables after a row was marked.
abbrev pub marked_db : String → Db → Db
marked_db id db = record db {
  outbox =
      update_where (λ r. r.event_id) id (λ r. r.status == outbox_pending)
        (set_outbox outbox_published db.now) db.outbox;
}

pub mark_outbox_published-writes :
    (id : String) (s : Session)
    → ((mark_outbox_published id s).1.db ≡ (arrive s).db)
      ⊎ ((mark_outbox_published id s).1.db ≡ marked_db id (arrive s).db)
unfolding driver mark_outbox_published update_outbox
mark_outbox_published-writes id s = ground arith
