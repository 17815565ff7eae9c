-- ===== src/Store/Postgres.antt =====
-- The methods of `Postgres` in internal/store/postgres.go.
use go_stripe_webhook_k8s.Base.{
  ℕ, String, ◌<>◌, Bool, true, false, Option, none, some, [], ◌==◌, string_eq, nat_eq,
  if◌then◌else◌,
}
use go_stripe_webhook_k8s.Go.{Bytes, plain, wrapped, is_no_rows, Result, ok, err}
use go_stripe_webhook_k8s.Monad.{M, pure, throw, ◌>>=◌, ◌>>◌, wrap, deferred, try, monad}
use go_stripe_webhook_k8s.Store.Schema.{
  EventStatus, OutboxStatus, OutboxRow, CompletionStatus, CompletionClaim, claim_new, claim_retry,
  claim_retry_from_failed, claim_already_processed, status_processing, status_accepted,
  status_processed, outbox_pending, outbox_published, completion_processing, completion_processed,
  completion_failed,
}
use go_stripe_webhook_k8s.Store.Statements.{
  select_status, insert_ledger, update_ledger_processed, insert_outbox, select_outbox, select_next,
  update_outbox, insert_completion, select_completion, retry_completion, reclaim_completion,
  update_processed, update_failed, truncate,
}
use go_stripe_webhook_k8s.Store.Driver.{
  Session, run, run_tx, rows_affected, ping_db, begin_tx, commit, rollback,
}

-- `Ping`
unfoldable pub ping : M Session (Unit {0})
ping = ping_db

unfoldable pub scanned_status : Result String → M Session EventStatus
scanned_status (ok state) = pure (record { status = state; found = true })
scanned_status (err e) =
    if is_no_rows e
    then pure (record { status = ""; found = false })
    else throw (wrapped "store: select status" e)

-- `Status`
unfoldable pub status : String → M Session EventStatus
status id = do scan ← try (run (select_status id)); scanned_status scan

-- An operation on a state of which the session is a part.
unfoldable pub on_session : {X A : Type 0} → M Session A → M (Session × X) A
on_session m (s, x) = let (r, s') = m s in (r, (s', x))

-- The callback's call, wrapped; a nil callback is not called.
unfoldable pub call_fn : {X : Type 0} → Option (M X (Unit {0})) → M (Session × X) (Unit {0})
unfolding monad
call_fn none w = (ok tt, w)
call_fn (some fn) (s, x) = let (r, x') = wrap "store: process fn" fn x in (r, (s, x'))

-- `ProcessEvent`. The callback acts on the state `X` of its caller.
unfoldable pub process_event :
    {X : Type 0} → String → String → Option (M X (Unit {0})) → M (Session × X) Bool
process_event id event_type fn = do
  on_session (wrap "store: begin tx" begin_tx)
  deferred (λ w. (rollback w.0, w.1))
      do
        res ←
            on_session
              (wrap "store: insert claim" (run_tx (insert_ledger id event_type status_processing)))
        n ← on_session (wrap "store: rows affected" (rows_affected res))
        if nat_eq n 0 then pure false else do
          call_fn fn
          on_session
              (wrap "store: mark processed" (run_tx (update_ledger_processed status_processed id)))
          on_session (wrap "store: commit" commit)
          pure true

-- `AcceptEvent`. `jsonb` is the database's cast to jsonb.
unfoldable pub accept_event : (Bytes → Option Bytes) → String → String → Bytes → M Session Bool
accept_event jsonb id event_type job_payload = do
  wrap "store: begin tx" begin_tx
  deferred rollback do
    res ← wrap "store: insert ledger" (run_tx (insert_ledger id event_type status_accepted))
    n ← wrap "store: rows affected" (rows_affected res)
    if nat_eq n 0 then pure false else do
      wrap "store: insert outbox"
          (run_tx (insert_outbox jsonb id event_type job_payload outbox_pending))
      wrap "store: commit" commit
      pure true

unfoldable pub scanned_outbox : Result (String × Bytes) → M Session OutboxStatus
scanned_outbox (ok (state, payload)) =
    pure (record { found = true; status = state; payload = payload })
scanned_outbox (err e) =
    if is_no_rows e
    then pure (record { found = false; status = ""; payload = [] })
    else throw (wrapped "store: select outbox" e)

-- `OutboxStatus`
unfoldable pub outbox_status : String → M Session OutboxStatus
outbox_status id = do scan ← try (run (select_outbox id)); scanned_outbox scan

unfoldable pub scanned_next : Result (String × Bytes) → M Session (Option OutboxRow)
scanned_next (ok (id, payload)) = pure (some (record { event_id = id; payload = payload }))
scanned_next (err e) =
    if is_no_rows e then pure none else throw (wrapped "store: select next pending outbox" e)

-- `NextPendingOutbox`
unfoldable pub next_pending_outbox : M Session (Option OutboxRow)
next_pending_outbox = do scan ← try (run (select_next outbox_pending)); scanned_next scan

-- `MarkOutboxPublished`
unfoldable pub mark_outbox_published : String → M Session Bool
mark_outbox_published id = do
  res ← wrap "store: mark outbox published" (run (update_outbox outbox_published id outbox_pending))
  n ← wrap "store: rows affected" (rows_affected res)
  pure (nat_eq n 1)

-- The `switch` on the status of an existing row.
unfoldable pub reclaim : String → String → String → ℕ → M Session CompletionClaim
reclaim id consumer state attempts =
    if state == completion_processed
    then pure (record { action = claim_already_processed; attempt_count = attempts })
    else if state == completion_processing
    then (do
      n ←
          wrap "store: retry consumer completion"
            (run (retry_completion id consumer completion_processing))
      pure (record { action = claim_retry; attempt_count = n }))
    else if state == completion_failed
    then (do
      n ←
          wrap "store: reclaim failed consumer completion"
            (run (reclaim_completion completion_processing id consumer completion_failed))
      pure (record { action = claim_retry_from_failed; attempt_count = n }))
    else throw (plain ("store: unexpected consumer completion status \"" <> (state <> "\"")))

-- The rest of `ClaimConsumerCompletion`, after its INSERT.
unfoldable pub claim_inserted : String → String → ℕ → M Session CompletionClaim
claim_inserted id consumer res = do
  n ← wrap "store: rows affected" (rows_affected res)
  if nat_eq n 1 then pure (record { action = claim_new; attempt_count = 1 }) else do
    row ← wrap "store: select consumer completion" (run (select_completion id consumer))
    reclaim id consumer row.0 row.1

-- `ClaimConsumerCompletion`
unfoldable pub claim_consumer_completion : String → String → String → M Session CompletionClaim
claim_consumer_completion id consumer event_type = do
  res ←
      wrap "store: insert consumer completion"
        (run (insert_completion id consumer event_type completion_processing))
  claim_inserted id consumer res

-- `MarkConsumerProcessed`
unfoldable pub mark_consumer_processed : String → String → M Session Bool
mark_consumer_processed id consumer = do
  res ←
      wrap "store: mark consumer processed"
        (run (update_processed completion_processed id consumer completion_processing))
  n ← wrap "store: rows affected" (rows_affected res)
  pure (nat_eq n 1)

-- `MarkConsumerFailed`
unfoldable pub mark_consumer_failed : String → String → String → M Session Bool
mark_consumer_failed id consumer msg = do
  res ←
      wrap "store: mark consumer failed"
        (run (update_failed completion_failed msg id consumer completion_processing))
  n ← wrap "store: rows affected" (rows_affected res)
  pure (nat_eq n 1)

unfoldable pub scanned_completion : Result (String × ℕ × Option String) → M Session CompletionStatus
scanned_completion (ok (state, attempts, none)) =
    pure (record { found = true; status = state; attempt_count = attempts; error = "" })
scanned_completion (ok (state, attempts, some e)) =
    pure (record { found = true; status = state; attempt_count = attempts; error = e })
scanned_completion (err e) =
    if is_no_rows e
    then pure (record { found = false; status = ""; attempt_count = 0; error = "" })
    else throw (wrapped "store: select consumer completion status" e)

-- `CompletionStatus`
unfoldable pub completion_status : String → String → M Session CompletionStatus
completion_status id consumer = do
  scan ← try (run (select_completion id consumer))
  scanned_completion scan

-- `TruncateLedger`
unfoldable pub truncate_ledger : M Session (Unit {0})
truncate_ledger = run truncate
