-- ===== src/Store/Stages.antt =====
-- The calls that `ClaimConsumerCompletion` makes one after the other, on what each answered.
use go_stripe_webhook_k8s.Base.{
  pair_eq, ℕ, String, ◌≡◌, refl, Bool, true, Option, none, some, ◌==◌, string_eq, ==-iff, false,
  if◌then◌else◌, nat_eq, subst, sym, arith,
}
use go_stripe_webhook_k8s.Go.{Result, ok, err}
use go_stripe_webhook_k8s.Store.Schema.{
  CompletionRecord, CompletionClaim, completion_processed, claim_already_processed, claim_new,
}
use go_stripe_webhook_k8s.Store.Statements.{select_completion, completion_row, select_completion}
use go_stripe_webhook_k8s.Monad.{M, ◌>>=◌, wrap, continue, wrap_error, pure, monad}
use go_stripe_webhook_k8s.Store.Driver.{
  Reply, done, refused, lost, reply_of, answer, Session, arrive, count_call, run, rows_affected,
}
use go_stripe_webhook_k8s.Store.Postgres.{reclaim, claim_inserted}

-- The status of a completion, by the test that the code makes.
abbrev pub PassesStatus : String → Option CompletionRecord → Type 0
PassesStatus status none = ⊥
PassesStatus status (some r) = (r.status == status) ≡ true

-- The stages of a claim, on what the calls before them answered.
module _ (id consumer : String) where
  reclaim_already :
      (state : String) (n : ℕ) (t : Session) (c : CompletionClaim)
      → (reclaim id consumer state n t).0 ≡ ok c
      → c.action ≡ claim_already_processed
      → ((state == completion_processed) ≡ true) × ((reclaim id consumer state n t).1 ≡ t)
  unfolding monad reclaim run
  reclaim_already state n t c h a = ground arith

  reclaim-of_processed :
      (state : String) (n : ℕ) (t : Session) (c : CompletionClaim)
      → state ≡ completion_processed
      → (reclaim id consumer state n t).0 ≡ ok c
      → c.action ≡ claim_already_processed
  unfolding monad reclaim
  reclaim-of_processed state n t c e h = ground (arith, ==-iff state completion_processed)

  selected_already :
      (text : String) (x : Result (String × ℕ × Option String) × Session) (c : CompletionClaim)
      → ((row : String × ℕ × Option String)
          → x.0 ≡ ok row
          → (row.0 == completion_processed) ≡ true
          → PassesStatus completion_processed (completion_row id consumer x.1.db))
      → (continue (λ row. reclaim id consumer row.0 row.1) (wrap_error text x)).0 ≡ ok c
      → c.action ≡ claim_already_processed
      → PassesStatus completion_processed (
          completion_row id consumer
            (continue (λ row. reclaim id consumer row.0 row.1) (wrap_error text x)).1.db)
  selected_already text (ok row, t) c good h a =
      let (test, same) = reclaim_already row.0 row.1 t c h a in
      subst (λ u. PassesStatus completion_processed (completion_row id consumer u.db)) (sym same)
        (good row refl test)
  selected_already text (err e, t) c good h a = cc

  select_good :
      (t : Session) (row : String × ℕ × Option String)
      → (run (select_completion id consumer) t).0 ≡ ok row
      → (row.0 == completion_processed) ≡ true
      → PassesStatus completion_processed
          (completion_row id consumer (run (select_completion id consumer) t).1.db)
  unfolding run select_completion
  select_good t row h test = ground arith

  abbrev Already : CompletionClaim → Result CompletionClaim × Session → Type 0
  Already c (r, t) =
      r ≡ ok c
      → c.action ≡ claim_already_processed
      → PassesStatus completion_processed (completion_row id consumer t.db)

  selecting : M Session CompletionClaim
  selecting =
      wrap "store: select consumer completion" (run (select_completion id consumer)) >>= λ row.
      reclaim id consumer row.0 row.1

  selecting-Already : (t : Session) (c : CompletionClaim) → Already c (selecting t)
  unfolding monad selecting
  selecting-Already t c h a =
      selected_already "store: select consumer completion" (run (select_completion id consumer) t) c
        (select_good t) h a

  not_new :
      (b : Bool) (c : CompletionClaim) (t : Session)
      → Already c
          ((if b then pure (record { action = claim_new; attempt_count = 1 }) else selecting) t)
  unfolding monad
  not_new true c t h a = cc
  not_new false c t h a = selecting-Already t c h a

  counted-Already :
      (text : String) (x : Result ℕ × Session) (c : CompletionClaim)
      → Already c (
          continue
            (λ n.
              if nat_eq n 1
              then pure (record { action = claim_new; attempt_count = 1 })
              else selecting)
            (wrap_error text x))
  counted-Already text (ok n, t) c h a = not_new (nat_eq n 1) c t h a
  counted-Already text (err e, t) c h a = cc

  claim_inserted-Already :
      (res : ℕ) (t : Session) (c : CompletionClaim) → Already c (claim_inserted id consumer res t)
  unfolding monad claim_inserted selecting
  claim_inserted-Already res t c h a =
      counted-Already "store: rows affected" (rows_affected res t) c h a

  pub inserted-Already :
      (text : String) (x : Result ℕ × Session) (c : CompletionClaim)
      → Already c (continue (claim_inserted id consumer) (wrap_error text x))
  inserted-Already text (ok n, t) c h a = claim_inserted-Already n t c h a
  inserted-Already text (err e, t) c h a = cc

  abbrev Skips : CompletionClaim → Result CompletionClaim × Session → Type 0
  Skips c (r, t) = r ≡ ok c → c.action ≡ claim_already_processed

  selected-Skips :
      (text : String) (x : Result (String × ℕ × Option String) × Session) (c : CompletionClaim)
      → ((row : String × ℕ × Option String) → x.0 ≡ ok row → row.0 ≡ completion_processed)
      → Skips c (continue (λ row. reclaim id consumer row.0 row.1) (wrap_error text x))
  selected-Skips text (ok row, t) c final h =
      reclaim-of_processed row.0 row.1 t c (final row refl) h
  selected-Skips text (err e, t) c final h = cc

  module _ (q : CompletionRecord) (final : q.status ≡ completion_processed) where
    selecting-Skips :
        (t : Session) (c : CompletionClaim)
        → completion_row id consumer (arrive t).db ≡ some q
        → Skips c (selecting t)
    unfolding monad selecting
    selecting-Skips t c found h =
        selected-Skips "store: select consumer completion" (run (select_completion id consumer) t) c
          (unfold run select_completion in λ row e. ground arith) h

    counted-Skips :
        (text : String) (reply : Reply) (t : Session) (c : CompletionClaim)
        → completion_row id consumer (arrive t).db ≡ some q
        → Skips c (
            continue
              (λ n.
                if nat_eq n 1
                then pure (record { action = claim_new; attempt_count = 1 })
                else selecting)
              (wrap_error text (answer reply 0 t)))
    counted-Skips text done t c found h = selecting-Skips t c found h
    counted-Skips text (refused m) t c found h = cc
    counted-Skips text (lost m) t c found h = cc

    pub claim_inserted-Skips :
        (t : Session) (c : CompletionClaim)
        → completion_row id consumer (arrive (count_call t)).db ≡ some q
        → Skips c (claim_inserted id consumer 0 t)
    unfolding monad claim_inserted rows_affected selecting
    claim_inserted-Skips t c found h =
        counted-Skips "store: rows affected" (reply_of t) (count_call t) c found h
