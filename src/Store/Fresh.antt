-- ===== src/Store/Fresh.antt =====
-- `AcceptEvent` on a new event, on a database that nobody else uses and whose calls succeed.
use go_stripe_webhook_k8s.Base.{
  Option, ℕ, String, ◌≡◌, sym, ==-self, true, none, some, string_eq, arith,
}
use go_stripe_webhook_k8s.Go.{Bytes, ok}
use go_stripe_webhook_k8s.Sql.Laws.{row_of-append}
use go_stripe_webhook_k8s.Store.Schema.{Db, LedgerRecord}
use go_stripe_webhook_k8s.Store.Statements.{ledger_row, outbox_row}
use go_stripe_webhook_k8s.Store.Driver.{Session}
use go_stripe_webhook_k8s.Store.Postgres.{accept_event}
use go_stripe_webhook_k8s.Store.Accept.{driver, accepted, accepted_row}
use go_stripe_webhook_k8s.Store.Lifecycle.{calm}

-- A session on a database that nobody else uses is given by its tables and its calls so far.
pub calm-eta :
    (k : ℕ) (db : Db) (s : Session)
    → s.tx ≡ none
    → s.script ≡ (calm k db).script
    → calm s.used s.db ≡ s
calm-eta k db s closed same i = record {
  db = s.db;
  tx = sym closed i;
  script = sym same i;
  used = s.used;
}

-- A new event is accepted: both of its rows are stored, and the database stays calm.
pub accept_event-fresh :
    (jsonb : Bytes → Option Bytes) (id event_type : String) (payload stored : Bytes) (k : ℕ)
    (db : Db)
    → ledger_row id db ≡ none
    → outbox_row id db ≡ none
    → jsonb payload ≡ some stored
    → let (r, t) = accept_event jsonb id event_type payload (calm k db) in
      (r ≡ ok true) × (t.db ≡ accepted id event_type stored db) × (t.tx ≡ none)
unfolding driver accept_event
accept_event-fresh jsonb id event_type payload stored k db absent free stores = ground (
  arith,
  ==-self id,
  row_of-append (λ (r : LedgerRecord). r.event_id) id db.ledger (accepted_row id event_type db),
)
