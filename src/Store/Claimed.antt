-- ===== src/Store/Claimed.antt =====
-- The row that a claim (`ClaimConsumerCompletion`) leaves behind.
use go_stripe_webhook_k8s.Base.{
  true, ℕ, String, ◌≡◌, refl, Option, none, some, string_eq, pair_eq, ==-self,
}
use go_stripe_webhook_k8s.Go.{Result, ok, err}
use go_stripe_webhook_k8s.Monad.{monad, continue, wrap_error}
use go_stripe_webhook_k8s.Sql.Laws.{row_of-insert_new, or_row}
use go_stripe_webhook_k8s.Store.Schema.{
  Db, CompletionRecord, CompletionClaim, completion_key, completion_processing,
}
use go_stripe_webhook_k8s.Store.Statements.{completion_row, insert_completion}
use go_stripe_webhook_k8s.Store.Driver.{
  Session, Reply, done, refused, lost, settle, run, reply_of, arrive,
}
use go_stripe_webhook_k8s.Store.Postgres.{claim_consumer_completion, claim_inserted}
use go_stripe_webhook_k8s.Store.Rely.{Rely, Left, run-Keeps, Left-Rely}
use go_stripe_webhook_k8s.Store.Guarantee.{claim_inserted-Keeps}
use go_stripe_webhook_k8s.Store.Evolves.{Evolves, CompletionLe, Evolves-Respects}

abbrev pub Exists : Option CompletionRecord → Type 0
Exists none = ⊥
Exists (some r) = Unit

pub CompletionLe-Exists : (o p : Option CompletionRecord) → CompletionLe o p → Exists o → Exists p
CompletionLe-Exists none p le h = absurd h
CompletionLe-Exists (some r) none le h = le
CompletionLe-Exists (some r) (some q) le h = tt

or_row-Exists : (o : Option CompletionRecord) (r : CompletionRecord) → Exists (or_row o true r)
or_row-Exists none r = tt
or_row-Exists (some x) r = tt

module _ (id consumer event_type : String) where
  abbrev InsertLeaves : Result (ℕ × Db) → Type 0
  InsertLeaves (ok (n, db)) = Exists (completion_row id consumer db)
  InsertLeaves (err e) = Unit

  insert_leaves :
      (db : Db) → InsertLeaves (insert_completion id consumer event_type completion_processing db)
  unfolding insert_completion
  insert_leaves db =
      rw
        (
          row_of-insert_new completion_key (id, consumer),
          ==-self {K = String × String} (id, consumer),
        )
        (or_row-Exists (completion_row id consumer db) _)

  settled_leaves :
      (reply : Reply) (r : Result (ℕ × Db)) (s : Session) (n : ℕ)
      → InsertLeaves r
      → (settle reply r s).0 ≡ ok n
      → Exists (completion_row id consumer (settle reply r s).1.db)
  settled_leaves done (ok (m, db)) s n leaves h = leaves
  settled_leaves done (err e) s n leaves h = cc
  settled_leaves (refused m) r s n leaves h = cc
  settled_leaves (lost m) (ok (k, db)) s n leaves h = cc
  settled_leaves (lost m) (err e) s n leaves h = cc

  rest_leaves :
      (text : String) (r : Result ℕ × Session) (c : CompletionClaim)
      → r.1.tx ≡ none
      → Rely Evolves r.1.script
      → ((n : ℕ) → r.0 ≡ ok n → Exists (completion_row id consumer r.1.db))
      → (continue (claim_inserted id consumer) (wrap_error text r)).0 ≡ ok c
      → Exists (
          completion_row id consumer
            (continue (claim_inserted id consumer) (wrap_error text r)).1.db)
  rest_leaves text (ok n, t) c closed rely leaves h =
      CompletionLe-Exists _ _
        (((claim_inserted-Keeps Evolves-Respects id consumer n).at t closed
            rely).related.completions_kept
          id consumer)
        (leaves n refl)
  rest_leaves text (err e, t) c closed rely leaves h = cc

  pub claim_consumer_completion-Exists :
      (s : Session) (c : CompletionClaim)
      → s.tx ≡ none
      → Rely Evolves s.script
      → (claim_consumer_completion id consumer event_type s).0 ≡ ok c
      → Exists
          (completion_row id consumer (claim_consumer_completion id consumer event_type s).1.db)
  unfolding claim_consumer_completion monad
  claim_consumer_completion-Exists s c closed rely h =
      let left : Left Evolves s
          (run (insert_completion id consumer event_type completion_processing) s).1 =
        (run-Keeps Evolves-Respects.preorder _ (Evolves-Respects.inserts id consumer event_type)).at
          s closed rely in
      rest_leaves "store: insert consumer completion" (run _ s) c left.closed (Left-Rely left rely)
        (unfold run in
          λ n. settled_leaves (reply_of s) _ (arrive s) n (insert_leaves (arrive s).db))
        h
