-- ===== src/Store/Reads.antt =====
-- The methods of internal/store/postgres.go that only read: `Status`, `OutboxStatus` and
-- `CompletionStatus`.
use go_stripe_webhook_k8s.Base.{
  String, ◌≡◌, refl, ◌∙◌, ap, subst, true, false, Option, none, some, [], string_eq, pair_eq,
  ==-self, Option-cases, arith,
}
use go_stripe_webhook_k8s.Go.{Bytes, Result, ok}
use go_stripe_webhook_k8s.Sql.Laws.{row_of-append}
use go_stripe_webhook_k8s.Store.Schema.{
  Db, LedgerRecord, OutboxRecord, CompletionRecord, EventStatus, OutboxStatus, CompletionStatus,
  status_accepted, outbox_pending,
}
use go_stripe_webhook_k8s.Store.Statements.{
  ledger_row, outbox_row, completion_row, select_status, select_outbox, select_completion,
}
use go_stripe_webhook_k8s.Store.Driver.{Session, arrive, done}
use go_stripe_webhook_k8s.Store.Postgres.{
  status, scanned_status, outbox_status, scanned_outbox, completion_status, scanned_completion,
  accept_event,
}
use go_stripe_webhook_k8s.Store.Rows.{driver}
use go_stripe_webhook_k8s.Store.Accept.{
  accepted, accepted_row, pending_row, AcceptOutcome, accept_event-outcome,
}

-- What the row of an event says.
abbrev pub event_status : Option LedgerRecord → EventStatus
event_status none = record { status = ""; found = false }
event_status (some r) = record { status = r.status; found = true }

abbrev pub outbox_answer : Option OutboxRecord → OutboxStatus
outbox_answer none = record { found = false; status = ""; payload = [] }
outbox_answer (some r) = record { found = true; status = r.status; payload = r.payload }

abbrev pub text_of : Option String → String
text_of none = ""
text_of (some e) = e

abbrev pub completion_answer : Option CompletionRecord → CompletionStatus
completion_answer none = record { found = false; status = ""; attempt_count = 0; error = "" }
completion_answer (some r) = record {
  found = true;
  status = r.status;
  attempt_count = r.attempt_count;
  error = text_of r.error;
}

-- The method changes nothing, and answers `a` unless its call fails.
abbrev pub Answers : {A : Type 0} → Session → Result A × Session → A → Type 0
Answers s x a = (x.1.db ≡ (arrive s).db) × ((s.script s.used).reply ≡ done → x.0 ≡ ok a)

module _ (id : String) (s : Session) where
  status_at :
      (o : Option LedgerRecord)
      → ledger_row id (arrive s).db ≡ o
      → Answers s (status id s) (event_status o)
  unfolding driver status scanned_status select_status
  status_at none e = ground arith
  status_at (some r) e = ground arith

  outbox_at :
      (o : Option OutboxRecord)
      → outbox_row id (arrive s).db ≡ o
      → Answers s (outbox_status id s) (outbox_answer o)
  unfolding driver outbox_status scanned_outbox select_outbox
  outbox_at none e = ground arith
  outbox_at (some r) e = ground arith

  completion_at :
      (consumer : String) (o : Option CompletionRecord)
      → completion_row id consumer (arrive s).db ≡ o
      → Answers s (completion_status id consumer s) (completion_answer o)
  unfolding driver completion_status scanned_completion select_completion
  completion_at consumer none e = ground arith
  completion_at consumer (some r) e = ground (arith, Option-cases r.error)

  -- `Status`, `OutboxStatus` and `CompletionStatus` change nothing, and answer what the row of the key
  -- says, with empty fields where there is none and an empty text for an error that is NULL; they
  -- answer an error only if their call fails.
  pub reads-answer :
      (consumer : String)
      → Answers s (status id s) (event_status (ledger_row id (arrive s).db))
        × Answers s (outbox_status id s) (outbox_answer (outbox_row id (arrive s).db))
        × Answers s
            (completion_status id consumer s)
            (completion_answer (completion_row id consumer (arrive s).db))
  reads-answer consumer = (status_at _ refl, outbox_at _ refl, completion_at consumer _ refl)

-- The rows of an event after it was accepted.
accepted_rows :
    (id event_type : String) (stored : Bytes) (db : Db)
    → ledger_row id db ≡ none
    → outbox_row id db ≡ none
    → (ledger_row id (accepted id event_type stored db) ≡ some (accepted_row id event_type db))
      × (outbox_row id (accepted id event_type stored db)
          ≡ some (pending_row id event_type stored db))
accepted_rows id event_type stored db absent free = (
  row_of-append (λ (r : LedgerRecord). r.event_id) id db.ledger (accepted_row id event_type db)
      ∙ rw (absent, ==-self id) refl,
  row_of-append (λ (r : OutboxRecord). r.event_id) id db.outbox
        (pending_row id event_type stored db)
      ∙ rw (free, ==-self id) refl,
)

-- What `AcceptEvent` stored is what the next call reads, if no other client acts between the two:
-- where the outbox row of the event needs its ledger row and no transaction is open, after the answer
-- true `Status` answers accepted and `OutboxStatus` answers pending with the payload as the database
-- stores it, unless their call fails.
pub status-accept_event :
    (jsonb : Bytes → Option Bytes) (id event_type : String) (payload : Bytes) (s : Session)
    → s.tx ≡ none
    → (ledger_row id (arrive s).db ≡ none → outbox_row id (arrive s).db ≡ none)
    → (accept_event jsonb id event_type payload s).0 ≡ ok true
    → (arrive (accept_event jsonb id event_type payload s).1).db
      ≡ (accept_event jsonb id event_type payload s).1.db
    → let t = (accept_event jsonb id event_type payload s).1 in
      (stored : Bytes) × (jsonb payload ≡ some stored)
      × Answers t (status id t) (record { status = status_accepted; found = true })
      × Answers t
          (outbox_status id t)
          (record { found = true; status = outbox_pending; payload = stored })
status-accept_event jsonb id event_type payload s closed referenced accepts quiet =
    let t = (accept_event jsonb id event_type payload s).1 in
    let (stored, stores, absent, same) =
      subst (λ r. AcceptOutcome jsonb id event_type payload r (arrive s).db t.db) accepts
        (accept_event-outcome jsonb id event_type payload s closed referenced) in
    let (row, out) = accepted_rows id event_type stored (arrive s).db absent (referenced absent) in
    let found = ap (ledger_row id) (quiet ∙ same) ∙ row in
    let pending = ap (outbox_row id) (quiet ∙ same) ∙ out in
    (stored, stores, status_at id t _ found, outbox_at id t _ pending)
