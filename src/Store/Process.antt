-- ===== src/Store/Process.antt =====
-- The transaction of `ProcessEvent` (internal/store/postgres.go) and its callback.
use go_stripe_webhook_k8s.Base.{
  String, ◌≡◌, ◌≢◌, ◌⊎◌, refl, inl, inr, Bool, true, false, Option, none, some, [], ◌∷◌, ◌++◌,
  string_eq, Option-cases, arith,
}
use go_stripe_webhook_k8s.Go.{Error, Result, ok, err, is_ok}
use go_stripe_webhook_k8s.Monad.{M}
use go_stripe_webhook_k8s.Sql.{update_where}
use go_stripe_webhook_k8s.Store.Schema.{Db, LedgerRecord, status_processing, status_processed}
use go_stripe_webhook_k8s.Store.Statements.{ledger_row, update_ledger_processed}
use go_stripe_webhook_k8s.Store.Driver.{Session, arrive}
use go_stripe_webhook_k8s.Store.Postgres.{process_event, on_session, call_fn}
use go_stripe_webhook_k8s.Store.Accept.{driver}

-- The row of an event that is being processed.
abbrev pub claim_row : String → String → Db → LedgerRecord
claim_row id event_type db = record {
  event_id = id;
  event_type = event_type;
  status = status_processing;
  received_at = db.now;
  processed_at = none;
}

-- The tables after the transaction committed.
abbrev pub processed_db : String → String → Db → Db
processed_db id event_type db = record db {
  ledger =
      update_where (λ (r : LedgerRecord). r.event_id) id (λ _. true)
        (λ r. record r { status = status_processed; processed_at = some db.now })
        (db.ledger ++ claim_row id event_type db ∷ []);
}

-- What the callback does, if there is one.
abbrev pub called : {X : Type 0} → Option (M X (Unit {0})) → M X (Unit {0})
called none x = (ok tt, x)
called (some fn) x = fn x

module _ {X : Type 0} (id event_type : String) (s : Session) (x : X) (closed : s.tx ≡ none) where
  -- The event was there already: the callback is not called.
  process_event-present :
      (fn : Option (M X (Unit {0}))) (r : LedgerRecord)
      → ledger_row id (arrive s).db ≡ some r
      → let (a, (t, y)) = process_event id event_type fn (s, x) in
        (a ≢ ok true) × (t.db ≡ (arrive s).db) × (y ≡ x)
  unfolding driver process_event on_session
  process_event-present fn r present = ground arith

  -- What a call on a new event leaves whose callback succeeds and leaves `y`.
  abbrev Committed : X → Result Bool → Db → X → Type 0
  Committed y a db z =
      (a ≢ ok false)
      × (a ≡ ok true → (db ≡ processed_db id event_type (arrive s).db) × (z ≡ y))
      × ((db ≡ (arrive s).db) ⊎ ((db ≡ processed_db id event_type (arrive s).db) × (z ≡ y)))
      × ((z ≡ x) ⊎ (z ≡ y))

  process_event-Committed :
      (fn : Option (M X (Unit {0}))) (y : X)
      → ledger_row id (arrive s).db ≡ none
      → called fn x ≡ (ok tt, y)
      → let (a, (t, z)) = process_event id event_type fn (s, x) in Committed y a t.db z
  unfolding driver process_event on_session call_fn update_ledger_processed
  process_event-Committed none y absent succeeds = ground arith
  process_event-Committed (some fn) y absent succeeds = ground arith

  process_event-failed :
      (fn : Option (M X (Unit {0}))) (e : Error) (y : X)
      → ledger_row id (arrive s).db ≡ none
      → called fn x ≡ (err e, y)
      → let (a, (t, z)) = process_event id event_type fn (s, x) in
        (is_ok a ≡ false) × (t.db ≡ (arrive s).db) × ((z ≡ x) ⊎ (z ≡ y))
  unfolding driver process_event on_session call_fn
  process_event-failed none e y absent fails = cc
  process_event-failed (some fn) e y absent fails = ground arith

  -- What a result of `ProcessEvent` says of the tables and of what the callback changes.
  abbrev pub ProcessOutcome : Option (M X (Unit {0})) → Result Bool → Db → X → Type 0
  ProcessOutcome fn (ok true) db y =
      (ledger_row id (arrive s).db ≡ none)
      × (called fn x ≡ (ok tt, y))
      × (db ≡ processed_db id event_type (arrive s).db)
  ProcessOutcome fn (ok false) db y =
      (ledger_row id (arrive s).db ≢ none) × (db ≡ (arrive s).db) × (y ≡ x)
  ProcessOutcome fn (err e) db y =
      ((y ≡ x) ⊎ (y ≡ (called fn x).1))
      × ((db ≡ (arrive s).db)
          ⊎ ((db ≡ processed_db id event_type (arrive s).db) × (called fn x ≡ (ok tt, y))))

  Committed-outcome :
      (fn : Option (M X (Unit {0}))) (y : X) (a : Result Bool) (db : Db) (z : X)
      → ledger_row id (arrive s).db ≡ none
      → called fn x ≡ (ok tt, y)
      → Committed y a db z
      → ProcessOutcome fn a db z
  Committed-outcome fn y (ok true) db z absent succeeds h =
      let (tables, same) = h.1 refl in (absent, rw same succeeds, tables)
  Committed-outcome fn y (ok false) db z absent succeeds h = absurd (h.0 refl)
  Committed-outcome fn y (err e) db z absent succeeds h = (
    elim h.3 [ inl same ↦ inl same | inr same ↦ inr (rw succeeds same) ],
    elim h.2 [ inl same ↦ inl same | inr (tables, same) ↦ inr (tables, rw same succeeds) ],
  )

  failed-outcome :
      (fn : Option (M X (Unit {0}))) (e : Error) (y : X) (a : Result Bool) (db : Db) (z : X)
      → called fn x ≡ (err e, y)
      → (is_ok a ≡ false) × (db ≡ (arrive s).db) × ((z ≡ x) ⊎ (z ≡ y))
      → ProcessOutcome fn a db z
  failed-outcome fn e y (ok b) db z fails h = cc
  failed-outcome fn e y (err m) db z fails h =
      (elim h.2 [ inl same ↦ inl same | inr same ↦ inr (rw fails same) ], inl h.1)

  present-outcome :
      (fn : Option (M X (Unit {0}))) (r : LedgerRecord) (a : Result Bool) (db : Db) (z : X)
      → ledger_row id (arrive s).db ≡ some r
      → (a ≢ ok true) × (db ≡ (arrive s).db) × (z ≡ x)
      → ProcessOutcome fn a db z
  present-outcome fn r (ok true) db z present h = absurd (h.0 refl)
  present-outcome fn r (ok false) db z present h = (ground arith, h.1, h.2)
  present-outcome fn r (err e) db z present h = (inl h.2, inl h.1)

  absent-outcome :
      (fn : Option (M X (Unit {0}))) (c : Result (Unit {0}) × X)
      → ledger_row id (arrive s).db ≡ none
      → called fn x ≡ c
      → let (a, (t, z)) = process_event id event_type fn (s, x) in ProcessOutcome fn a t.db z
  absent-outcome fn (ok u, y) absent calls =
      Committed-outcome fn y _ _ _ absent calls (process_event-Committed fn y absent calls)
  absent-outcome fn (err e, y) absent calls =
      failed-outcome fn e y _ _ _ calls (process_event-failed fn e y absent calls)

  -- Outside of a transaction `ProcessEvent` answers true only for a new event, whose callback
  -- succeeded and is called once, and whose ledger row it leaves as processed; it answers false only
  -- for an event that was there, with nothing changed and the callback not called; and after an error
  -- the callback was called at most once, and the tables are as they were, or the event was processed
  -- after the callback succeeded.
  pub process_event-outcome :
      (fn : Option (M X (Unit {0})))
      → let (a, (t, y)) = process_event id event_type fn (s, x) in ProcessOutcome fn a t.db y
  process_event-outcome fn = elim (Option-cases (ledger_row id (arrive s).db)) [
    | inl absent ↦ absent-outcome fn (called fn x) absent refl
    | inr (r, present) ↦ present-outcome fn r _ _ _ present (process_event-present fn r present)
  ]
