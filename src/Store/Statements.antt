-- ===== src/Store/Statements.antt =====
-- The SQL statements of internal/store/postgres.go, one function each. A statement that fails
-- changes nothing; one that is not a query answers the number of rows affected.
use go_stripe_webhook_k8s.Base.{
  ℕ, ◌+◌, String, true, Option, none, some, List, [], ◌∷◌, ◌++◌, ◌==◌, string_eq, pair_eq, ltb, leb,
  if◌then◌else◌,
}
use go_stripe_webhook_k8s.Go.{Bytes, plain, no_rows, Result, ok, err}
use go_stripe_webhook_k8s.Sql.{row_of, insert_new, update_where, affected}
use go_stripe_webhook_k8s.Store.Schema.{
  LedgerRecord, OutboxRecord, CompletionRecord, Db, completion_key, max_int,
}

abbrev pub Statement : Type 0 → Type 0
Statement A = Db → Result (A × Db)

abbrev pub ledger_row : String → Db → Option LedgerRecord
ledger_row id db = row_of (λ r. r.event_id) id db.ledger

abbrev pub outbox_row : String → Db → Option OutboxRecord
outbox_row id db = row_of (λ r. r.event_id) id db.outbox

abbrev pub completion_row : String → String → Db → Option CompletionRecord
completion_row id consumer db = row_of completion_key (id, consumer) db.completions

-- SELECT status FROM processed_events WHERE event_id = $1
unfoldable pub select_status : String → Statement String
select_status id db = elim (ledger_row id db) [ none ↦ err no_rows | some r ↦ ok (r.status, db) ]

-- INSERT INTO processed_events … ON CONFLICT (event_id) DO NOTHING
unfoldable pub insert_ledger : String → String → String → Statement ℕ
insert_ledger id event_type status db =
    let row : LedgerRecord = record {
      event_id = id;
      event_type = event_type;
      status = status;
      received_at = db.now;
      processed_at = none;
    } in
    let (rows, n) = insert_new (λ r. r.event_id) row db.ledger in
    ok (n, record db { ledger = rows })

-- UPDATE processed_events SET status = $1, processed_at = now() WHERE event_id = $2
unfoldable pub update_ledger_processed : String → String → Statement ℕ
update_ledger_processed status id db = ok (
  affected (λ r. r.event_id) id (λ _. true) db.ledger,
  record db {
    ledger =
        update_where (λ r. r.event_id) id (λ _. true)
          (λ r. record r { status = status; processed_at = some db.now }) db.ledger;
  },
)

-- INSERT INTO outbox_events … with the cast to jsonb, the foreign key to processed_events and the
-- unique key, in this order. `jsonb` is the cast: what a column of type jsonb gives back for a
-- text, or nothing if the text is refused.
unfoldable pub insert_outbox :
    (Bytes → Option Bytes) → String → String → Bytes → String → Statement ℕ
insert_outbox jsonb id event_type payload status db = elim (jsonb payload) [
  | none ↦ err (plain "invalid input syntax for type json")
  | some stored ↦ elim (outbox_row id db) [
    | some _ ↦ err (plain "duplicate key value violates unique constraint")
    | none ↦ elim (ledger_row id db) [
      | none ↦ err (plain "insert violates foreign key constraint")
      | some _ ↦
          let row : OutboxRecord = record {
            id = db.next_id;
            event_id = id;
            event_type = event_type;
            payload = stored;
            status = status;
            created_at = db.now;
            published_at = none;
          } in
          ok (1, record db { outbox = db.outbox ++ row ∷ []; next_id = db.next_id + 1 })
    ]
  ]
]

-- SELECT status, payload FROM outbox_events WHERE event_id = $1
unfoldable pub select_outbox : String → Statement (String × Bytes)
select_outbox id db = elim (outbox_row id db) [
  | none ↦ err no_rows
  | some r ↦ ok ((r.status, r.payload), db)
]

-- The row of least id among those of the status: ORDER BY id LIMIT 1.
unfoldable pub oldest : String → List OutboxRecord → Option OutboxRecord
oldest status [] = none
oldest status (r ∷ rows) =
    let rest = oldest status rows in
    if r.status == status
    then elim rest [ none ↦ some r | some best ↦ if ltb best.id r.id then some best else some r ]
    else rest

-- SELECT event_id, payload FROM outbox_events WHERE status = $1 ORDER BY id LIMIT 1
unfoldable pub select_next : String → Statement (String × Bytes)
select_next status db = elim (oldest status db.outbox) [
  | none ↦ err no_rows
  | some r ↦ ok ((r.event_id, r.payload), db)
]

abbrev pub set_outbox : String → ℕ → OutboxRecord → OutboxRecord
set_outbox status now r = record r { status = status; published_at = some now }

-- UPDATE outbox_events SET status = $1, published_at = now() WHERE event_id = $2 AND status = $3
unfoldable pub update_outbox : String → String → String → Statement ℕ
update_outbox status id old db = ok (
  affected (λ r. r.event_id) id (λ r. r.status == old) db.outbox,
  record db {
    outbox =
        update_where (λ r. r.event_id) id (λ r. r.status == old) (set_outbox status db.now)
          db.outbox;
  },
)

-- INSERT INTO consumer_completions … VALUES (…, 1) ON CONFLICT (event_id, consumer_name) DO NOTHING
unfoldable pub insert_completion : String → String → String → String → Statement ℕ
insert_completion id consumer event_type status db =
    let row : CompletionRecord = record {
      event_id = id;
      consumer_name = consumer;
      event_type = event_type;
      status = status;
      error = none;
      attempt_count = 1;
      created_at = db.now;
      updated_at = db.now;
      processed_at = none;
    } in
    let (rows, n) = insert_new completion_key row db.completions in
    ok (n, record db { completions = rows })

-- SELECT status, attempt_count, error FROM consumer_completions
-- WHERE event_id = $1 AND consumer_name = $2; one of the two queries leaves `error` out.
unfoldable pub select_completion : String → String → Statement (String × ℕ × Option String)
select_completion id consumer db = elim (completion_row id consumer db) [
  | none ↦ err no_rows
  | some r ↦ ok ((r.status, r.attempt_count, r.error), db)
]

-- UPDATE consumer_completions SET … WHERE event_id = $ AND consumer_name = $ AND status = $
unfoldable pub set_completion :
    String → String → String → (CompletionRecord → CompletionRecord) → Db → Db
set_completion id consumer old f db = record db {
  completions = update_where completion_key (id, consumer) (λ r. r.status == old) f db.completions;
}

-- An UPDATE of that form with RETURNING attempt_count, which it raises by one, on the row found.
-- The column is an INT, so that a sum above its range fails.
abbrev pub raise_found :
    String
    → String
    → String
    → (ℕ → CompletionRecord → CompletionRecord)
    → Db
    → Option CompletionRecord
    → Result (ℕ × Db)
raise_found id consumer old f db none = err no_rows
raise_found id consumer old f db (some r) =
    if r.status == old
    then if leb max_int r.attempt_count
      then err (plain "integer out of range")
      else ok (r.attempt_count + 1, set_completion id consumer old (f db.now) db)
    else err no_rows

unfoldable pub raise_attempts :
    String → String → String → (ℕ → CompletionRecord → CompletionRecord) → Statement ℕ
raise_attempts id consumer old f db =
    raise_found id consumer old f db (completion_row id consumer db)

-- … SET attempt_count = attempt_count + 1, updated_at = now() … RETURNING attempt_count
unfoldable pub retry_row : ℕ → CompletionRecord → CompletionRecord
retry_row now r = record r { attempt_count = r.attempt_count + 1; updated_at = now }

unfoldable pub retry_completion : String → String → String → Statement ℕ
retry_completion id consumer old = raise_attempts id consumer old retry_row

-- … SET status = $1, attempt_count = attempt_count + 1, error = NULL, updated_at = now() …
unfoldable pub reclaim_row : String → ℕ → CompletionRecord → CompletionRecord
reclaim_row status now r = record r {
  status = status;
  attempt_count = r.attempt_count + 1;
  error = none;
  updated_at = now;
}

unfoldable pub reclaim_completion : String → String → String → String → Statement ℕ
reclaim_completion status id consumer old = raise_attempts id consumer old (reclaim_row status)

abbrev pub rows_set : String → String → String → Db → ℕ
rows_set id consumer old db =
    affected completion_key (id, consumer) (λ r. r.status == old) db.completions

-- … SET status = $1, processed_at = now(), updated_at = now(), error = NULL …
unfoldable pub processed_row : String → ℕ → CompletionRecord → CompletionRecord
processed_row status now r = record r {
  status = status;
  processed_at = some now;
  updated_at = now;
  error = none;
}

unfoldable pub update_processed : String → String → String → String → Statement ℕ
update_processed status id consumer old db =
    ok
      (rows_set id consumer old db, set_completion id consumer old (processed_row status db.now) db)

-- … SET status = $1, error = $2, updated_at = now() …
unfoldable pub failed_row : String → String → ℕ → CompletionRecord → CompletionRecord
failed_row status error now r = record r { status = status; error = some error; updated_at = now }

unfoldable pub update_failed : String → String → String → String → String → Statement ℕ
update_failed status error id consumer old db = ok (
  rows_set id consumer old db,
  set_completion id consumer old (failed_row status error db.now) db,
)

-- TRUNCATE TABLE consumer_completions, outbox_events, processed_events
unfoldable pub truncate : Statement (Unit {0})
truncate db = ok (tt, record db { ledger = []; outbox = []; completions = [] })
