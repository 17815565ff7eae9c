-- ===== src/Store/Lifecycle.antt =====
-- The life of one completion as a state machine, beside the store's methods on a database that nobody
-- else uses and whose calls succeed.
pub mod Marks
use mathlib.Core.Option
use go_stripe_webhook_k8s.Base.{
  ◌∙◌, ◌<◌, ◌≢◌, ℕ, ◌+◌, String, ◌≡◌, refl, Bool, true, false, Option, none, some, ◌==◌, string_eq,
  pair_eq, ==-iff, ==-self, ◌&&◌, leb, nat_eq, if◌then◌else◌, Option-cases, arith, inl, inr,
}
use go_stripe_webhook_k8s.Go.{plain, is_ok, Error, Result, ok, err}
use go_stripe_webhook_k8s.Sql.{IsKeyed, row_of, insert_new}
use go_stripe_webhook_k8s.Sql.Laws.{
  row_of-insert_new, row_of-update_where, affected_lem, row_of-key, row_of-append,
}
use go_stripe_webhook_k8s.Store.Schema.{
  Db, CompletionRecord, CompletionClaim, claim_new, claim_retry, claim_retry_from_failed,
  claim_already_processed, completion_key, completion_processing, completion_processed,
  completion_failed, max_int,
}
use go_stripe_webhook_k8s.Store.Statements.{
  raise_attempts, rows_set, completion_row, retry_row, reclaim_row, set_completion, processed_row,
  failed_row, insert_completion, select_completion, retry_completion, reclaim_completion,
  update_processed, update_failed,
}
use go_stripe_webhook_k8s.Store.Driver.{Session, Reply, done, Call, run, rows_affected}
use go_stripe_webhook_k8s.Store.Postgres.{
  claim_consumer_completion, mark_consumer_processed, mark_consumer_failed, reclaim,
}
use go_stripe_webhook_k8s.Monad.{monad}
use go_stripe_webhook_k8s.Store.Rows.{
  driver, set_completion_self, insert_completion-found, select_completion-found,
  raise_attempts-found, raise_attempts-full, retry_row-key, reclaim_row-key,
}
use go_stripe_webhook_k8s.Store.Distinct.{
  processing-ne-processed, processing-ne-failed, failed-ne-processed,
}

-- Where a consumer stands with an event, and after how many attempts.
pub data Phase : Type 0 where
  absent : Phase
  processing : ℕ → Phase
  processed : ℕ → Phase
  failed : ℕ → Option String → Phase
  unknown : Phase

abbrev pub phase_of : Option CompletionRecord → Phase
phase_of none = absent
phase_of (some r) =
    if r.status == completion_processing
    then processing r.attempt_count
    else if r.status == completion_processed
    then processed r.attempt_count
    else if r.status == completion_failed
    then failed r.attempt_count r.error
    else unknown

abbrev pub phase : String → String → Db → Phase
phase id consumer db = phase_of (completion_row id consumer db)

-- A new claim of an event that is not processed counts as one more attempt.
abbrev pub claimed_phase : Phase → Phase
claimed_phase absent = processing 1
claimed_phase (processing n) = processing (n + 1)
claimed_phase (failed n e) = processing (n + 1)
claimed_phase (processed n) = processed n
claimed_phase unknown = unknown

abbrev pub claim_of : Phase → CompletionClaim
claim_of absent = record { action = claim_new; attempt_count = 1 }
claim_of (processing n) = record { action = claim_retry; attempt_count = n + 1 }
claim_of (failed n e) = record { action = claim_retry_from_failed; attempt_count = n + 1 }
claim_of (processed n) = record { action = claim_already_processed; attempt_count = n }
claim_of unknown = record { action = claim_new; attempt_count = 0 }

-- Attempts left in the range of the column.
abbrev pub attempts : Phase → ℕ
attempts absent = 0
attempts (processing n) = n
attempts (failed n e) = n
attempts (processed n) = 0
attempts unknown = 0

-- A session on a database that nobody else uses and whose calls all succeed.
abbrev pub calm : ℕ → Db → Session
calm n db = record {
  db = db;
  tx = none;
  script = λ k. record { interfere = λ d. d; reply = done };
  used = n;
}

abbrev new_row : String → String → String → Db → CompletionRecord
new_row id consumer event_type db = record {
  event_id = id;
  consumer_name = consumer;
  event_type = event_type;
  status = completion_processing;
  error = none;
  attempt_count = 1;
  created_at = db.now;
  updated_at = db.now;
  processed_at = none;
}

pair_self : (id consumer : String) → ◌==◌ {K = String × String} (id, consumer) (id, consumer) ≡ true
pair_self id consumer = ==-self {K = String × String} (id, consumer)

-- The answer of `ClaimConsumerCompletion`, and the phase that it leaves.
abbrev pub Claims : ℕ → String → String → String → Db → Type 0
Claims k id consumer event_type db =
    let (r, t) = claim_consumer_completion id consumer event_type (calm k db) in
    (r ≡ ok (claim_of (phase id consumer db)))
    × (phase id consumer t.db ≡ claimed_phase (phase id consumer db))

claim_absent :
    (k : ℕ) (id consumer event_type : String) (db : Db)
    → completion_row id consumer db ≡ none
    → Claims k id consumer event_type db
unfolding driver claim_consumer_completion insert_new insert_completion
claim_absent k id consumer event_type db e = ground (
  arith,
  row_of-append completion_key (id, consumer) db.completions (new_row id consumer event_type db),
  pair_self id consumer,
)

-- The phase of a row that is claimed once more.
retry_row-phase :
    (now : ℕ) (r : CompletionRecord)
    → r.status ≡ completion_processing
    → phase_of (some (retry_row now r)) ≡ processing (r.attempt_count + 1)
unfolding retry_row
retry_row-phase now r e = ground (arith, ==-iff r.status completion_processing)

reclaim_row-phase :
    (now : ℕ) (r : CompletionRecord)
    → phase_of (some (reclaim_row completion_processing now r)) ≡ processing (r.attempt_count + 1)
unfolding reclaim_row
reclaim_row-phase now r = refl

claim_present :
    (k : ℕ) (id consumer event_type : String) (db : Db) (r : CompletionRecord)
    → completion_row id consumer db ≡ some r
    → phase id consumer db ≢ unknown
    → attempts (phase id consumer db) < max_int
    → Claims k id consumer event_type db
unfolding driver claim_consumer_completion retry_completion reclaim_completion
claim_present k id consumer event_type db r e known room = ground (
  arith,
  ==-iff r.status completion_processing,
  ==-iff r.status completion_processed,
  ==-iff r.status completion_failed,
  insert_completion-found id consumer db r e event_type completion_processing,
  select_completion-found id consumer db r e,
  raise_attempts-found id consumer db r e completion_processing retry_row,
  raise_attempts-found id consumer db r e completion_failed (reclaim_row completion_processing),
  set_completion_self id consumer completion_processing (retry_row db.now) db r e
      (retry_row-key db.now),
  set_completion_self id consumer completion_failed (reclaim_row completion_processing db.now) db r
      e (reclaim_row-key completion_processing db.now),
  retry_row-phase db.now r,
  reclaim_row-phase db.now r,
  processing-ne-processed,
  processing-ne-failed,
  failed-ne-processed,
)

-- On a calm database `ClaimConsumerCompletion` answers and moves a completion as the state machine
-- says, from every phase of a known status, while the attempts fit the column.
pub claim_consumer_completion-refines :
    (k : ℕ) (id consumer event_type : String) (db : Db)
    → phase id consumer db ≢ unknown
    → attempts (phase id consumer db) < max_int
    → Claims k id consumer event_type db
claim_consumer_completion-refines k id consumer event_type db known room =
    elim (Option-cases (completion_row id consumer db)) [
      | inl e ↦ claim_absent k id consumer event_type db e
      | inr (r, e) ↦ claim_present k id consumer event_type db r e known room
    ]
