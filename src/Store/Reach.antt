-- ===== src/Store/Reach.antt =====
-- What the processes of cmd/ can do to the tables together, in any interleaving: the statements that
-- internal/store/postgres.go commits one by one, the transaction of `AcceptEvent` and what an aborted
-- one leaves, and the clock. `ProcessEvent` and `TruncateLedger` are called by no process.
use go_stripe_webhook_k8s.Base.{ℕ, ◌≤◌, ◌+◌, String, ◌≡◌, refl, sym, subst, none, string_eq}
use go_stripe_webhook_k8s.Go.{Bytes, Result, ok, err}
use go_stripe_webhook_k8s.Store.Schema.{
  Db, completion_processing, completion_processed, completion_failed, outbox_published,
  outbox_pending,
}
use go_stripe_webhook_k8s.Store.Statements.{
  Statement, ledger_row, update_outbox, insert_completion, retry_completion, reclaim_completion,
  update_processed, update_failed,
}
use go_stripe_webhook_k8s.Store.Rely.{IsPreorder, Ends, Guarantees}
use go_stripe_webhook_k8s.Store.Guarantee.{Respects}
use go_stripe_webhook_k8s.Store.Accept.{accepted}

-- One change of the tables that a process commits, or that time makes.
pub data Step (a b : Db) : Type 0 where
  insert :
      (id consumer event_type : String) (n : ℕ)
      → insert_completion id consumer event_type completion_processing a ≡ ok (n, b)
      → Step a b
  retry :
      (id consumer : String) (n : ℕ)
      → retry_completion id consumer completion_processing a ≡ ok (n, b)
      → Step a b
  reclaim :
      (id consumer : String) (n : ℕ)
      → reclaim_completion completion_processing id consumer completion_failed a ≡ ok (n, b)
      → Step a b
  finish :
      (id consumer : String) (n : ℕ)
      → update_processed completion_processed id consumer completion_processing a ≡ ok (n, b)
      → Step a b
  fail :
      (msg id consumer : String) (n : ℕ)
      → update_failed completion_failed msg id consumer completion_processing a ≡ ok (n, b)
      → Step a b
  publish :
      (id : String) (n : ℕ)
      → update_outbox outbox_published id outbox_pending a ≡ ok (n, b)
      → Step a b
  accept :
      (id event_type : String) (stored : Bytes)
      → ledger_row id a ≡ none
      → b ≡ accepted id event_type stored a
      → Step a b
  skip_id : b ≡ record a { next_id = a.next_id + 1 } → Step a b
  tick : (t : ℕ) → a.now ≤ t → b ≡ record a { now = t } → Step a b

-- Any number of such changes, one after the other.
pub data Reach (a : Db) : Db → Type 0 where
  here : Reach a a
  later : {b c : Db} → Reach a b → Step b c → Reach a c

pub Reach-trans : {a b c : Db} → Reach a b → Reach b c → Reach a c
Reach-trans p here = p
Reach-trans p (later q s) = later (Reach-trans p q) s

Reach-IsPreorder : IsPreorder Reach
Reach-IsPreorder = record { reflexive = λ a. here; transitive = λ a b c p q. Reach-trans p q }

-- A statement of which each success is a step.
step-Ends :
    {A : Type 0} (a : Db) (r : Result (A × Db))
    → ((n : A) (b : Db) → r ≡ ok (n, b) → Step a b)
    → Ends Reach a r
step-Ends a (ok (n, b)) steps = later here (steps n b refl)
step-Ends a (err e) steps = tt

-- The methods outside of a transaction do no more than take such steps.
pub Reach-Respects : Respects Reach
Reach-Respects = record {
  preorder = Reach-IsPreorder;
  inserts = λ id consumer event_type a. step-Ends a _ (λ n b. Step.insert id consumer event_type n);
  retries = λ id consumer a. step-Ends a _ (λ n b. Step.retry id consumer n);
  reclaims = λ id consumer a. step-Ends a _ (λ n b. Step.reclaim id consumer n);
  processes = λ id consumer a. step-Ends a _ (λ n b. Step.finish id consumer n);
  fails = λ msg id consumer a. step-Ends a _ (λ n b. Step.fail msg id consumer n);
  publishes = λ id a. step-Ends a _ (λ n b. Step.publish id n);
}

-- A relation that contains every step.
pub record Contains (R : Db → Db → Type 0) : Type 0 where
  pub respects : Respects R
  pub accepts :
      (id event_type : String) (stored : Bytes) (a : Db)
      → ledger_row id a ≡ none
      → R a (accepted id event_type stored a)
  pub skips : (a : Db) → R a (record a { next_id = a.next_id + 1 })
  pub ticks : (t : ℕ) (a : Db) → R a (record a { now = t })

module _ {R : Db → Db → Type 0} (h : Contains R) where
  done :
      {A : Type 0} (st : Statement A) {a b : Db} {n : A}
      → Guarantees R st
      → st a ≡ ok (n, b)
      → R a b
  done st {a} guarantees e = subst (Ends R a) e (guarantees a)

  Step-related : {a b : Db} → Step a b → R a b
  Step-related (insert id consumer event_type n e) =
      done _ (h.respects.inserts id consumer event_type) e
  Step-related (retry id consumer n e) = done _ (h.respects.retries id consumer) e
  Step-related (reclaim id consumer n e) = done _ (h.respects.reclaims id consumer) e
  Step-related (finish id consumer n e) = done _ (h.respects.processes id consumer) e
  Step-related (fail msg id consumer n e) = done _ (h.respects.fails msg id consumer) e
  Step-related (publish id n e) = done _ (h.respects.publishes id) e
  Step-related {a} (accept id event_type stored absent e) =
      subst (R a) (sym e) (h.accepts id event_type stored a absent)
  Step-related {a} (skip_id e) = subst (R a) (sym e) (h.skips a)
  Step-related {a} (tick t past e) = subst (R a) (sym e) (h.ticks t a)

  -- It contains whatever is reached.
  pub Reach-related : {a b : Db} → Reach a b → R a b
  Reach-related {a} here = h.respects.preorder.reflexive a
  Reach-related {a} (later p s) =
      h.respects.preorder.transitive a _ _ (Reach-related p) (Step-related s)
