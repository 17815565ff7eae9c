-- ===== src/Store/Recorded.antt =====
-- Events in the ledger, and that `AcceptEvent` (internal/store/postgres.go) takes each event once.
use go_stripe_webhook_k8s.Base.{
  String, ◌≡◌, ◌≢◌, refl, subst, true, Option, none, some, string_eq, ==-self,
}
use go_stripe_webhook_k8s.Go.{Bytes, ok}
use go_stripe_webhook_k8s.Sql.Laws.{row_of-append, or_row}
use go_stripe_webhook_k8s.Store.Schema.{Db, LedgerRecord}
use go_stripe_webhook_k8s.Store.Statements.{ledger_row}
use go_stripe_webhook_k8s.Store.Driver.{Session, arrive}
use go_stripe_webhook_k8s.Store.Postgres.{accept_event}
use go_stripe_webhook_k8s.Store.Evolves.{Evolves, LedgerLe}
use go_stripe_webhook_k8s.Store.Sound.{Sound, arrive-Sound}
use go_stripe_webhook_k8s.Store.Accept.{
  accepted, accepted_row, AcceptOutcome, accept_event-outcome, accept_event-present,
}

-- The event is in the ledger.
abbrev pub IsRecorded : Option LedgerRecord → Type 0
IsRecorded none = ⊥
IsRecorded (some r) = Unit

pub recorded : (o : Option LedgerRecord) → o ≢ none → IsRecorded o
recorded none h = absurd (h refl)
recorded (some r) h = tt

pub LedgerLe-IsRecorded : (a b : Option LedgerRecord) → LedgerLe a b → IsRecorded a → IsRecorded b
LedgerLe-IsRecorded none b le h = absurd h
LedgerLe-IsRecorded (some r) none le h = absurd le
LedgerLe-IsRecorded (some r) (some q) le h = tt

or_row-IsRecorded : (o : Option LedgerRecord) (r : LedgerRecord) → IsRecorded (or_row o true r)
or_row-IsRecorded none r = tt
or_row-IsRecorded (some q) r = tt

pub accepted-IsRecorded :
    (id event_type : String) (stored : Bytes) (db : Db)
    → IsRecorded (ledger_row id (accepted id event_type stored db))
accepted-IsRecorded id event_type stored db =
    rw
      (
        row_of-append (λ (r : LedgerRecord). r.event_id) id db.ledger
            (accepted_row id event_type db),
        ==-self id,
      )
      (or_row-IsRecorded (ledger_row id db) (accepted_row id event_type db))

recorded_row : (o : Option LedgerRecord) → IsRecorded o → (r : LedgerRecord) × (o ≡ some r)
recorded_row none h = absurd h
recorded_row (some r) h = (r, refl)

module _ (jsonb : Bytes → Option Bytes) (id : String) where
  accept_event-IsRecorded :
      (event_type : String) (payload : Bytes) (s : Session)
      → Sound s
      → (accept_event jsonb id event_type payload s).0 ≡ ok true
      → IsRecorded (ledger_row id (accept_event jsonb id event_type payload s).1.db)
  accept_event-IsRecorded event_type payload s sound accepts =
      let (stored, stores, absent, same) =
        subst
          (λ r.
            AcceptOutcome jsonb id event_type payload r (arrive s).db
              (accept_event jsonb id event_type payload s).1.db)
          accepts
          (accept_event-outcome jsonb id event_type payload s sound.closed
            ((arrive-Sound s sound).valid.referenced id)) in
      rw same (accepted-IsRecorded id event_type stored (arrive s).db)

  -- Of two calls of `AcceptEvent` for an event, one after the other, at most the first answers true:
  -- on a valid database that the other clients keep valid, if what happens between the calls undoes
  -- nothing, and however each call ends.
  pub accept_event-once :
      (event_type event_type' : String) (payload payload' : Bytes) (s t : Session)
      → Sound s
      → (accept_event jsonb id event_type payload s).0 ≡ ok true
      → t.tx ≡ none
      → Evolves (accept_event jsonb id event_type payload s).1.db (arrive t).db
      → (accept_event jsonb id event_type' payload' t).0 ≢ ok true
  accept_event-once event_type event_type' payload payload' s t sound accepts closed between =
      let (r, present) = recorded_row (ledger_row id (arrive t).db) (
        LedgerLe-IsRecorded _ _ (between.ledger_kept id)
          (accept_event-IsRecorded event_type payload s sound accepts)) in
      (accept_event-present jsonb id event_type' payload' t r closed present).1
