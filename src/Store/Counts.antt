-- ===== src/Store/Counts.antt =====
-- The counts of attempts that `ClaimConsumerCompletion` (internal/store/postgres.go) answers.
use go_stripe_webhook_k8s.Base.{
  subst, ℕ, ◌≤◌, String, ◌≡◌, refl, Option, none, some, ◌==◌, string_eq, pair_eq, nat_eq, arith,
}
use go_stripe_webhook_k8s.Go.{ok}
use go_stripe_webhook_k8s.Monad.{M}
use go_stripe_webhook_k8s.Store.Schema.{
  Db, CompletionRecord, CompletionClaim, completion_key, max_int, completion_processing,
  completion_processed, completion_failed,
}
use go_stripe_webhook_k8s.Store.Statements.{
  completion_row, select_completion, raise_attempts, raise_found, retry_completion,
  reclaim_completion,
}
use go_stripe_webhook_k8s.Store.Driver.{Session, run}
use go_stripe_webhook_k8s.Store.Postgres.{reclaim, claim_inserted, claim_consumer_completion}
use go_stripe_webhook_k8s.Store.Rely.{Rely, wrap-Keeps, run-Keeps, rows_affected-Keeps}
use go_stripe_webhook_k8s.Store.Valid.{
  IsValid, KeepsValid, KeepsValid-Respects, CompletionCheck, row_of-All,
}
use go_stripe_webhook_k8s.Store.Guarantee.{select_completion-Guarantees}
use go_stripe_webhook_k8s.Store.Yields.{
  Post, Yields, pure-Yields, throw-Yields, wrap-Yields, if-Yields, run-Yields, anything, >>=-Yields,
}

-- In the range that the column attempt_count has on a valid database.
abbrev pub InRange : ℕ → Type 0
InRange n = (1 ≤ n) × (n ≤ max_int)

module _ (id consumer : String) where
  found_range :
      (db : Db) (r : CompletionRecord)
      → IsValid db
      → completion_row id consumer db ≡ some r
      → InRange r.attempt_count
  found_range db r valid found =
      let (status, low, high) =
        row_of-All completion_key CompletionCheck (id, consumer) db.completions
          valid.completions_checked found in
      (low, high)

  select_range :
      (db : Db) (row : String × ℕ × Option String) (db' : Db) (o : Option CompletionRecord)
      → IsValid db
      → completion_row id consumer db ≡ o
      → select_completion id consumer db ≡ ok (row, db')
      → InRange row.1
  unfolding select_completion
  select_range db row db' none valid e h = ground arith
  select_range db row db' (some r) valid e h = let range = found_range db r valid e in ground arith

  select-Yields : Yields (λ row. InRange row.1) (run (select_completion id consumer))
  select-Yields =
      run-Yields (select_completion id consumer)
        (λ db valid row db'. select_range db row db' (completion_row id consumer db) valid refl)

  raised_range :
      (old : String) (f : ℕ → CompletionRecord → CompletionRecord) (db : Db) (n : ℕ) (db' : Db)
      (o : Option CompletionRecord)
      → raise_found id consumer old f db o ≡ ok (n, db')
      → InRange n
  raised_range old f db n db' none h = cc
  raised_range old f db n db' (some r) h = ground arith

  raise-Yields :
      (old : String) (f : ℕ → CompletionRecord → CompletionRecord)
      → Yields InRange (run (raise_attempts id consumer old f))
  unfolding raise_attempts
  raise-Yields old f =
      run-Yields (raise_attempts id consumer old f)
        (λ db valid n db'. raised_range old f db n db' (completion_row id consumer db))

  retry-Yields : (old : String) → Yields InRange (run (retry_completion id consumer old))
  unfolding retry_completion
  retry-Yields old = raise-Yields old _

  reclaimed-Yields :
      (state old : String) → Yields InRange (run (reclaim_completion state id consumer old))
  unfolding reclaim_completion
  reclaimed-Yields state old = raise-Yields old _

  abbrev Counts : M Session CompletionClaim → Type 0
  Counts m = Yields (λ c. InRange c.attempt_count) m

  reclaim-Yields :
      (state : String) (attempts : ℕ)
      → InRange attempts
      → Counts (reclaim id consumer state attempts)
  unfolding reclaim
  reclaim-Yields state attempts range =
      let h = KeepsValid-Respects in
      if-Yields (state == completion_processed) _ _ (pure-Yields _ range) (
        if-Yields (state == completion_processing) _ _
          (>>=-Yields _ _
            (wrap-Keeps h.preorder _ _ (run-Keeps h.preorder _ (h.retries id consumer)))
            (wrap-Yields _ _ (retry-Yields completion_processing)) (λ n p. pure-Yields _ p))
          (if-Yields (state == completion_failed) _ _
            (>>=-Yields _ _
              (wrap-Keeps h.preorder _ _ (run-Keeps h.preorder _ (h.reclaims id consumer)))
              (wrap-Yields _ _ (reclaimed-Yields completion_processing completion_failed))
              (λ n p. pure-Yields _ p))
            (throw-Yields _)))

  claim_inserted-Yields : (res : ℕ) → Counts (claim_inserted id consumer res)
  unfolding claim_inserted
  claim_inserted-Yields res =
      let p = KeepsValid-Respects.preorder in
      >>=-Yields {P = λ n. Unit} _ _ (wrap-Keeps p _ _ (rows_affected-Keeps p res)) (anything _)
        (λ n u. if-Yields (nat_eq n 1) _ _ (pure-Yields _ (omega arith, omega arith)) (
          >>=-Yields _ _
            (wrap-Keeps p _ _ (
              run-Keeps p _
                (select_completion-Guarantees KeepsValid-Respects.preorder id consumer)))
            (wrap-Yields _ _ select-Yields) (λ row range. reclaim-Yields row.0 row.1 range)))

  claim-Yields : (event_type : String) → Counts (claim_consumer_completion id consumer event_type)
  unfolding claim_consumer_completion
  claim-Yields event_type =
      let h = KeepsValid-Respects in
      >>=-Yields {P = λ n. Unit} _ _
        (wrap-Keeps h.preorder _ _ (run-Keeps h.preorder _ (h.inserts id consumer event_type)))
        (anything _) (λ n u. claim_inserted-Yields n)

  -- The count of attempts that a claim answers is at least 1 and at most 2147483647: on a valid
  -- database that the other clients keep valid, whatever else they do between the claim's calls, and
  -- however each of these ends.
  pub claim_consumer_completion-range :
      (event_type : String) (s : Session) (c : CompletionClaim)
      → s.tx ≡ none
      → IsValid s.db
      → Rely KeepsValid s.script
      → (claim_consumer_completion id consumer event_type s).0 ≡ ok c
      → InRange c.attempt_count
  claim_consumer_completion-range event_type s c closed valid rely e =
      subst (Post (λ x. InRange x.attempt_count)) e
        ((claim-Yields event_type).at s closed valid rely)
