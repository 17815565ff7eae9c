-- ===== src/Store/Lifecycle/Marks.antt =====
-- The two marks that end an attempt, on a calm database.

use go_stripe_webhook_k8s.Base.{
  ℕ, String, ◌≡◌, refl, Bool, true, false, Option, none, some, string_eq, pair_eq, ==-iff, arith,
}
use go_stripe_webhook_k8s.Go.{Result, ok}
use go_stripe_webhook_k8s.Sql.{IsKeyed}
use go_stripe_webhook_k8s.Store.Schema.{
  Db, CompletionRecord, completion_key, completion_processing, completion_processed,
  completion_failed,
}
use go_stripe_webhook_k8s.Store.Statements.{
  completion_row, processed_row, failed_row, update_processed, update_failed,
}
use go_stripe_webhook_k8s.Store.Driver.{Session}
use go_stripe_webhook_k8s.Store.Postgres.{mark_consumer_processed, mark_consumer_failed}
use go_stripe_webhook_k8s.Store.Rows.{
  driver, set_completion_self, set_completion-absent, processed_row-key, failed_row-key,
  rows_set-found, rows_set-absent,
}
use go_stripe_webhook_k8s.Store.Lifecycle.{
  calm, Phase, processing, processed, failed, phase, phase_of,
}

-- The phase after an attempt that succeeded, and whether the row was marked.
abbrev pub processed_phase : Phase → Phase × Bool
processed_phase (processing n) = (processed n, true)
processed_phase p = (p, false)

-- The phase after an attempt that failed, and whether the row was marked.
abbrev pub failed_phase : String → Phase → Phase × Bool
failed_phase msg (processing n) = (failed n (some msg), true)
failed_phase msg p = (p, false)

-- What a mark answers and leaves, by what the state machine says.
abbrev pub Marks : Result Bool × Session → String → String → Phase × Bool → Type 0
Marks (r, t) id consumer (p, b) = (r ≡ ok b) × (phase id consumer t.db ≡ p)

processed_row-phase :
    (now : ℕ) (r : CompletionRecord)
    → phase_of (some (processed_row completion_processed now r)) ≡ processed r.attempt_count
unfolding processed_row
processed_row-phase now r = refl

failed_row-phase :
    (msg : String) (now : ℕ) (r : CompletionRecord)
    → phase_of (some (failed_row completion_failed msg now r)) ≡ failed r.attempt_count (some msg)
unfolding failed_row
failed_row-phase msg now r = refl

module _ (k : ℕ) (id consumer : String) (db : Db)
    (keyed : IsKeyed completion_key db.completions) where
  processed_at :
      (o : Option CompletionRecord)
      → completion_row id consumer db ≡ o
      → Marks
          (mark_consumer_processed id consumer (calm k db))
          id
          consumer
          (processed_phase (phase_of o))
  unfolding driver mark_consumer_processed update_processed
  processed_at none e = ground (
    arith,
    rows_set-absent id consumer completion_processing db e keyed,
    set_completion-absent id consumer completion_processing
        (processed_row completion_processed db.now) db e
        (processed_row-key completion_processed db.now),
  )
  processed_at (some r) e = ground (
    arith,
    ==-iff r.status completion_processing,
    rows_set-found id consumer db r e completion_processing keyed,
    set_completion_self id consumer completion_processing
        (processed_row completion_processed db.now) db r e
        (processed_row-key completion_processed db.now),
    processed_row-phase db.now r,
  )

  -- On a calm database with unique keys `MarkConsumerProcessed` moves a completion from processing to
  -- processed and answers true; in any other phase it answers false and the phase stays.
  pub mark_consumer_processed-refines :
      Marks
        (mark_consumer_processed id consumer (calm k db))
        id
        consumer
        (processed_phase (phase id consumer db))
  mark_consumer_processed-refines = processed_at _ refl

  failed_at :
      (msg : String) (o : Option CompletionRecord)
      → completion_row id consumer db ≡ o
      → Marks
          (mark_consumer_failed id consumer msg (calm k db))
          id
          consumer
          (failed_phase msg (phase_of o))
  unfolding driver mark_consumer_failed update_failed
  failed_at msg none e = ground (
    arith,
    rows_set-absent id consumer completion_processing db e keyed,
    set_completion-absent id consumer completion_processing
        (failed_row completion_failed msg db.now) db e
        (failed_row-key completion_failed msg db.now),
  )
  failed_at msg (some r) e = ground (
    arith,
    ==-iff r.status completion_processing,
    rows_set-found id consumer db r e completion_processing keyed,
    set_completion_self id consumer completion_processing (failed_row completion_failed msg db.now)
        db r e (failed_row-key completion_failed msg db.now),
    failed_row-phase msg db.now r,
  )

  -- On a calm database with unique keys `MarkConsumerFailed` moves a completion from processing to
  -- failed with the message and answers true; in any other phase it answers false and the phase stays.
  pub mark_consumer_failed-refines :
      (msg : String)
      → Marks
          (mark_consumer_failed id consumer msg (calm k db))
          id
          consumer
          (failed_phase msg (phase id consumer db))
  mark_consumer_failed-refines msg = failed_at msg _ refl
