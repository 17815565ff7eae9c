-- ===== src/Store/Marked.antt =====
-- The answers of the completion methods and the tables behind them, whatever the other clients do
-- between the calls and however the calls end.
use go_stripe_webhook_k8s.Base.{
  pair_eq, ℕ, String, ◌≡◌, refl, ◌⊎◌, Bool, true, Option, none, some, string_eq, ==-iff, arith,
}
use go_stripe_webhook_k8s.Go.{ok}
use go_stripe_webhook_k8s.Sql.{IsKeyed}
use go_stripe_webhook_k8s.Store.Schema.{
  CompletionRecord, CompletionClaim, completion_key, completion_processing, completion_processed,
  completion_failed, claim_already_processed,
}
use go_stripe_webhook_k8s.Store.Statements.{
  completion_row, processed_row, failed_row, update_processed, update_failed,
}
use go_stripe_webhook_k8s.Monad.{monad}
use go_stripe_webhook_k8s.Store.Driver.{Session, arrive, count_call, run}
use go_stripe_webhook_k8s.Store.Postgres.{
  mark_consumer_processed, mark_consumer_failed, claim_consumer_completion,
}
use go_stripe_webhook_k8s.Store.Stages.{PassesStatus, inserted-Already, claim_inserted-Skips}
use go_stripe_webhook_k8s.Store.Valid.{CompletionCheck}
use go_stripe_webhook_k8s.Store.Rows.{
  driver, set_completion_self, processed_row-key, failed_row-key, rows_set-found, rows_set-absent,
  insert_completion-found,
}

-- The status of a completion, if it has one.
abbrev pub HasStatus : String → Option CompletionRecord → Type 0
HasStatus status none = ⊥
HasStatus status (some r) = r.status ≡ status

HasStatus-passed :
    (status : String) (o : Option CompletionRecord) → PassesStatus status o → HasStatus status o
HasStatus-passed status none h = h
HasStatus-passed status (some r) h = (==-iff r.status status).0 h

processed_row_lem :
    (status : String) (now : ℕ) (r : CompletionRecord)
    → (processed_row status now r).status ≡ status
unfolding processed_row
processed_row_lem status now r = refl

failed_row_lem :
    (status error : String) (now : ℕ) (r : CompletionRecord)
    → (failed_row status error now r).status ≡ status
unfolding failed_row
failed_row_lem status error now r = refl

module _ (id consumer : String) (s : Session)
    (keyed : IsKeyed completion_key (arrive s).db.completions) where
  processed_true :
      (o : Option CompletionRecord)
      → completion_row id consumer (arrive s).db ≡ o
      → (mark_consumer_processed id consumer s).0 ≡ ok true
      → HasStatus completion_processed
          (completion_row id consumer (mark_consumer_processed id consumer s).1.db)
  unfolding driver mark_consumer_processed update_processed
  processed_true none e h =
      ground (arith, rows_set-absent id consumer completion_processing (arrive s).db e keyed)
  processed_true (some r) e h = ground (
    arith,
    ==-iff r.status completion_processing,
    rows_set-found id consumer (arrive s).db r e completion_processing keyed,
    set_completion_self id consumer completion_processing
        (processed_row completion_processed (arrive s).db.now) (arrive s).db r e
        (processed_row-key completion_processed (arrive s).db.now),
    processed_row_lem completion_processed (arrive s).db.now r,
  )

abbrev pub IsSettled : Option CompletionRecord → Type 0
IsSettled none = ⊥
IsSettled (some r) = (r.status ≡ completion_processed) ⊎ (r.status ≡ completion_failed)

module _ (id consumer : String) (s : Session) where
  -- A mark that answers true has made the completion processed.
  pub mark_consumer_processed-true :
      IsKeyed completion_key (arrive s).db.completions
      → (mark_consumer_processed id consumer s).0 ≡ ok true
      → HasStatus completion_processed
          (completion_row id consumer (mark_consumer_processed id consumer s).1.db)
  mark_consumer_processed-true keyed = processed_true id consumer s keyed _ refl

  -- A failure mark that answers without error leaves a completion settled.
  pub mark_consumer_failed-settles :
      (msg : String) (r : CompletionRecord) (b : Bool)
      → completion_row id consumer (arrive s).db ≡ some r
      → CompletionCheck r
      → (mark_consumer_failed id consumer msg s).0 ≡ ok b
      → IsSettled (completion_row id consumer (mark_consumer_failed id consumer msg s).1.db)
  unfolding driver mark_consumer_failed update_failed
  mark_consumer_failed-settles msg r b e check h = ground (
    arith,
    ==-iff r.status completion_processing,
    set_completion_self id consumer completion_processing
        (failed_row completion_failed msg (arrive s).db.now) (arrive s).db r e
        (failed_row-key completion_failed msg (arrive s).db.now),
    failed_row_lem completion_failed msg (arrive s).db.now r,
  )

  already_processed_test :
      (event_type : String) (c : CompletionClaim)
      → (claim_consumer_completion id consumer event_type s).0 ≡ ok c
      → c.action ≡ claim_already_processed
      → PassesStatus completion_processed
          (completion_row id consumer (claim_consumer_completion id consumer event_type s).1.db)
  unfolding monad claim_consumer_completion
  already_processed_test event_type c h a =
      inserted-Already id consumer "store: insert consumer completion" (run _ s) c h a

  -- A claim that answers "already processed" has seen a processed completion.
  pub claim-already_processed :
      (event_type : String) (c : CompletionClaim)
      → (claim_consumer_completion id consumer event_type s).0 ≡ ok c
      → c.action ≡ claim_already_processed
      → HasStatus completion_processed
          (completion_row id consumer (claim_consumer_completion id consumer event_type s).1.db)
  claim-already_processed event_type c h a =
      HasStatus-passed _ _ (already_processed_test event_type c h a)

  -- The two sessions in which a claim of an event that has a completion reads the tables.
  abbrev second : Session
  second = arrive (count_call (arrive s))

  -- A claim of a processed completion answers "already processed" or an error.
  pub claim-of_processed :
      (event_type : String) (c : CompletionClaim) (r q : CompletionRecord)
      → completion_row id consumer (arrive s).db ≡ some r
      → completion_row id consumer second.db ≡ some q
      → q.status ≡ completion_processed
      → (claim_consumer_completion id consumer event_type s).0 ≡ ok c
      → c.action ≡ claim_already_processed
  unfolding monad claim_consumer_completion run
  claim-of_processed event_type c r q e f final h = ground (
    arith,
    insert_completion-found id consumer (arrive s).db r e event_type completion_processing,
    claim_inserted-Skips id consumer q final (arrive s) c f,
  )
