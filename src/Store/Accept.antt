-- ===== src/Store/Accept.antt =====
-- The transaction of `AcceptEvent`: which tables it can leave behind, however its calls end.
use go_stripe_webhook_k8s.Base.{
  refl, inl, inr, Bool, Option-cases, string_eq, ◌+◌, String, ◌≡◌, ◌≢◌, ◌⊎◌, true, false, Option,
  none, some, [], ◌∷◌, ◌++◌, arith,
}
use go_stripe_webhook_k8s.Go.{err, Result, Bytes, ok, is_ok}
use go_stripe_webhook_k8s.Monad.{monad}
use go_stripe_webhook_k8s.Sql.{insert_new}
use go_stripe_webhook_k8s.Sql.Laws.{row_of-append}
use go_stripe_webhook_k8s.Store.Schema.{
  Db, LedgerRecord, OutboxRecord, status_accepted, outbox_pending,
}
use go_stripe_webhook_k8s.Store.Statements.{ledger_row, outbox_row, insert_ledger, insert_outbox}
use go_stripe_webhook_k8s.Store.Driver.{
  Session, run, run_tx, rows_affected, begin_tx, commit, rollback, arrive,
}
use go_stripe_webhook_k8s.Store.Postgres.{accept_event}

-- The rows of an accepted event.
abbrev pub accepted_row : String → String → Db → LedgerRecord
accepted_row id event_type db = record {
  event_id = id;
  event_type = event_type;
  status = status_accepted;
  received_at = db.now;
  processed_at = none;
}

abbrev pub pending_row : String → String → Bytes → Db → OutboxRecord
pending_row id event_type stored db = record {
  id = db.next_id;
  event_id = id;
  event_type = event_type;
  payload = stored;
  status = outbox_pending;
  created_at = db.now;
  published_at = none;
}

-- The tables after the transaction committed.
abbrev pub accepted : String → String → Bytes → Db → Db
accepted id event_type stored db = record db {
  ledger = db.ledger ++ accepted_row id event_type db ∷ [];
  outbox = db.outbox ++ pending_row id event_type stored db ∷ [];
  next_id = db.next_id + 1;
}

-- Opens the calls of the driver and the statements of the two transactions.
unfoldable pub driver : Unit {0}
unfolding monad run run_tx rows_affected begin_tx commit rollback insert_ledger insert_outbox
    insert_new
driver = tt

module _ (jsonb : Bytes → Option Bytes) (id event_type : String) (payload : Bytes) where
  -- The event was there already: nothing changes, and the event is not claimed.
  pub accept_event-present :
      (s : Session) (r : LedgerRecord)
      → s.tx ≡ none
      → ledger_row id (arrive s).db ≡ some r
      → ((accept_event jsonb id event_type payload s).1.db ≡ (arrive s).db)
        × ((accept_event jsonb id event_type payload s).0 ≢ ok true)
  unfolding driver accept_event
  accept_event-present s r closed present = ground arith

  -- A new event whose payload the database stores: both rows are there, or neither. An error may
  -- come after both are there, if the reply to Commit is lost; an aborted attempt may leave a gap in
  -- the sequence.
  pub accept_event-absent :
      (s : Session) (stored : Bytes)
      → s.tx ≡ none
      → ledger_row id (arrive s).db ≡ none
      → outbox_row id (arrive s).db ≡ none
      → jsonb payload ≡ some stored
      → let (r, t) = accept_event jsonb id event_type payload s in
        ((t.db ≡ accepted id event_type stored (arrive s).db) × (r ≢ ok false))
        ⊎ ((t.db ≡ (arrive s).db) × (is_ok r ≡ false))
        ⊎ ((t.db ≡ record (arrive s).db { next_id = (arrive s).db.next_id + 1 })
            × (is_ok r ≡ false))
  unfolding driver accept_event
  accept_event-absent s stored closed absent free stores = ground (
    arith,
    row_of-append (λ (r : LedgerRecord). r.event_id) id (arrive s).db.ledger
        (accepted_row id event_type (arrive s).db),
  )

  -- A new event whose payload the cast refuses: an error, and nothing changes.
  pub accept_event-refused :
      (s : Session)
      → s.tx ≡ none
      → ledger_row id (arrive s).db ≡ none
      → jsonb payload ≡ none
      → let (r, t) = accept_event jsonb id event_type payload s in
        (t.db ≡ (arrive s).db) × (is_ok r ≡ false)
  unfolding driver accept_event
  accept_event-refused s closed absent refuses = ground arith

  pub accept_event-closed :
      (s : Session) → s.tx ≡ none → (accept_event jsonb id event_type payload s).1.tx ≡ none
  unfolding driver accept_event
  accept_event-closed s closed = ground arith

  pub accept_event-same_script :
      (s : Session) → (accept_event jsonb id event_type payload s).1.script ≡ s.script
  unfolding driver accept_event
  accept_event-same_script s = ground arith

  -- An attempt that failed after the outbox row was drawn up leaves a gap in the sequence.
  abbrev pub gap : Db → Db
  gap db = record db { next_id = db.next_id + 1 }

  -- Both rows of the event, with the payload as the database stores it.
  abbrev pub BothRows : Db → Db → Type 0
  BothRows db db' =
      (stored : Bytes) × (jsonb payload ≡ some stored)
      × (ledger_row id db ≡ none)
      × (db' ≡ accepted id event_type stored db)

  -- What a result of `AcceptEvent` says of the tables before and after.
  abbrev pub AcceptOutcome : Result Bool → Db → Db → Type 0
  AcceptOutcome (ok true) db db' = BothRows db db'
  AcceptOutcome (ok false) db db' = (ledger_row id db ≢ none) × (db' ≡ db)
  AcceptOutcome (err e) db db' = (db' ≡ db) ⊎ (db' ≡ gap db) ⊎ BothRows db db'

  present-outcome :
      (r : Result Bool) (db db' : Db) (row : LedgerRecord)
      → ledger_row id db ≡ some row
      → db' ≡ db
      → r ≢ ok true
      → AcceptOutcome r db db'
  present-outcome (ok true) db db' row present same other = absurd (other refl)
  present-outcome (ok false) db db' row present same other = (ground arith, same)
  present-outcome (err e) db db' row present same other = inl same

  failed-outcome :
      (r : Result Bool) (db db' : Db)
      → is_ok r ≡ false
      → (db' ≡ db) ⊎ (db' ≡ gap db) ⊎ BothRows db db'
      → AcceptOutcome r db db'
  failed-outcome (ok b) db db' failed cases = cc
  failed-outcome (err e) db db' failed cases = cases

  both-outcome :
      (r : Result Bool) (db db' : Db) → r ≢ ok false → BothRows db db' → AcceptOutcome r db db'
  both-outcome (ok true) db db' other both = both
  both-outcome (ok false) db db' other both = absurd (other refl)
  both-outcome (err e) db db' other both = inr (inr both)

  -- Where the outbox row of the event needs its ledger row and no transaction is open, `AcceptEvent`
  -- answers true only with both rows of a new event stored, and false only for an event that was
  -- there, with nothing changed; after an error the tables are as they were, up to a gap in the
  -- sequence, or have both rows.
  pub accept_event-outcome :
      (s : Session)
      → s.tx ≡ none
      → (ledger_row id (arrive s).db ≡ none → outbox_row id (arrive s).db ≡ none)
      → let (r, t) = accept_event jsonb id event_type payload s in
        AcceptOutcome r (arrive s).db t.db
  accept_event-outcome s closed referenced = elim (Option-cases (ledger_row id (arrive s).db)) [
    | inr (row, present) ↦
        let (same, other) = accept_event-present s row closed present in
        present-outcome _ _ _ row present same other
    | inl absent ↦ elim (Option-cases (jsonb payload)) [
      | inl refuses ↦
          let (same, failed) = accept_event-refused s closed absent refuses in
          failed-outcome _ _ _ failed (inl same)
      | inr (stored, stores) ↦
          elim (accept_event-absent s stored closed absent (referenced absent) stores) [
            | inl (both, other) ↦ both-outcome _ _ _ other (stored, stores, absent, both)
            | inr (inl (same, failed)) ↦ failed-outcome _ _ _ failed (inl same)
            | inr (inr (drawn, failed)) ↦ failed-outcome _ _ _ failed (inr (inl drawn))
          ]
    ]
  ]
