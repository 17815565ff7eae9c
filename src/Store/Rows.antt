-- ===== src/Store/Rows.antt =====
-- The statements on one completion, by the row that its key has.

use go_stripe_webhook_k8s.Base.{
  ◌∙◌, ◌<◌, ℕ, ◌+◌, String, ◌≡◌, refl, none, some, ◌==◌, string_eq, pair_eq, ==-iff, if◌then◌else◌,
  arith,
}
use go_stripe_webhook_k8s.Go.{plain, ok, err}
use go_stripe_webhook_k8s.Sql.{IsKeyed, insert_new}
use go_stripe_webhook_k8s.Sql.Laws.{row_of-update_where, affected_lem, row_of-key}
use go_stripe_webhook_k8s.Store.Schema.{Db, CompletionRecord, completion_key, max_int}
use go_stripe_webhook_k8s.Store.Statements.{
  raise_attempts, rows_set, completion_row, retry_row, reclaim_row, set_completion, processed_row,
  failed_row, insert_completion, select_completion,
}
use go_stripe_webhook_k8s.Store.Driver.{run, rows_affected}
use go_stripe_webhook_k8s.Store.Postgres.{claim_inserted, reclaim}
use go_stripe_webhook_k8s.Monad.{monad}

-- Opens the calls of the driver outside of a transaction.
unfoldable pub driver : Unit {0}
unfolding monad run rows_affected reclaim claim_inserted
driver = tt

-- The row of a key after an UPDATE of that key.
pub set_completion_self :
    (id consumer old : String) (f : CompletionRecord → CompletionRecord) (db : Db)
    (r : CompletionRecord)
    → completion_row id consumer db ≡ some r
    → ((x : CompletionRecord) → completion_key (f x) ≡ completion_key x)
    → completion_row id consumer (set_completion id consumer old f db)
      ≡ some (if r.status == old then f r else r)
unfolding set_completion
set_completion_self id consumer old f db r e keeps =
    row_of-update_where completion_key (id, consumer) (λ x. x.status == old) f keeps (id, consumer)
      db.completions
    ∙ rw e (
        ground (
          arith,
          (==-iff {K = String × String} (completion_key r) (id, consumer)).1
              (row_of-key completion_key (id, consumer) db.completions r e),
        ))

module _ (id consumer : String) (db : Db) (r : CompletionRecord)
    (found : completion_row id consumer db ≡ some r) where
  pub insert_completion-found :
      (event_type state : String) → insert_completion id consumer event_type state db ≡ ok (0, db)
  unfolding insert_completion insert_new
  insert_completion-found event_type state = ground arith

  pub select_completion-found :
      select_completion id consumer db ≡ ok ((r.status, r.attempt_count, r.error), db)
  unfolding select_completion
  select_completion-found = ground arith

  pub raise_attempts-found :
      (old : String) (f : ℕ → CompletionRecord → CompletionRecord)
      → r.status ≡ old
      → r.attempt_count < max_int
      → raise_attempts id consumer old f db
        ≡ ok (r.attempt_count + 1, set_completion id consumer old (f db.now) db)
  unfolding raise_attempts
  raise_attempts-found old f same below = ground (arith, ==-iff r.status old)

  pub raise_attempts-full :
      (old : String) (f : ℕ → CompletionRecord → CompletionRecord)
      → r.status ≡ old
      → r.attempt_count ≡ max_int
      → raise_attempts id consumer old f db ≡ err (plain "integer out of range")
  unfolding raise_attempts
  raise_attempts-full old f same full = ground (arith, ==-iff r.status old)

  pub rows_set-found :
      (old : String)
      → IsKeyed completion_key db.completions
      → rows_set id consumer old db ≡ (if r.status == old then 1 else 0)
  rows_set-found old keyed =
      affected_lem completion_key (id, consumer) (λ x. x.status == old) db.completions keyed
      ∙ rw found

pub retry_row-key :
    (now : ℕ) (x : CompletionRecord) → completion_key (retry_row now x) ≡ completion_key x
unfolding retry_row
retry_row-key now x = refl

pub reclaim_row-key :
    (state : String) (now : ℕ) (x : CompletionRecord)
    → completion_key (reclaim_row state now x) ≡ completion_key x
unfolding reclaim_row
reclaim_row-key state now x = refl

pub processed_row-key :
    (state : String) (now : ℕ) (x : CompletionRecord)
    → completion_key (processed_row state now x) ≡ completion_key x
unfolding processed_row
processed_row-key state now x = refl

pub failed_row-key :
    (state error : String) (now : ℕ) (x : CompletionRecord)
    → completion_key (failed_row state error now x) ≡ completion_key x
unfolding failed_row
failed_row-key state error now x = refl

pub rows_set-absent :
    (id consumer old : String) (db : Db)
    → completion_row id consumer db ≡ none
    → IsKeyed completion_key db.completions
    → rows_set id consumer old db ≡ 0
rows_set-absent id consumer old db e keyed =
    affected_lem completion_key (id, consumer) (λ x. x.status == old) db.completions keyed ∙ rw e

pub set_completion-absent :
    (id consumer old : String) (f : CompletionRecord → CompletionRecord) (db : Db)
    → completion_row id consumer db ≡ none
    → ((x : CompletionRecord) → completion_key (f x) ≡ completion_key x)
    → completion_row id consumer (set_completion id consumer old f db) ≡ none
unfolding set_completion
set_completion-absent id consumer old f db e keeps =
    row_of-update_where completion_key (id, consumer) (λ x. x.status == old) f keeps (id, consumer)
      db.completions
    ∙ rw e
