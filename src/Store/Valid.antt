-- ===== src/Store/Valid.antt =====
-- What the schema of migrations/ asks of the tables, with the rows in the order of their insertion:
-- keys are unique, the ids of the outbox ascend, every outbox row has its ledger
-- row, each status is one that the CHECK of its table admits, and an attempt count is a positive INT;
-- and the statements of internal/store/postgres.go that change the tables outside of a transaction.
use go_stripe_webhook_k8s.Base.{
  ℕ, ◌≤◌, ◌<◌, String, ◌≡◌, refl, ◌⊎◌, inl, inr, Bool, true, none, some, List, [], ◌∷◌, ◌==◌,
  string_eq, pair_eq, ==-iff, Eq, All, All-append, Bool-cases, subst, arith,
}
use go_stripe_webhook_k8s.Sql.{row_of, insert_new, update_where, IsKeyed}
use go_stripe_webhook_k8s.Sql.Laws.{insert_new-IsKeyed, update_where-IsKeyed, row_of-update_where}
use go_stripe_webhook_k8s.Store.Schema.{
  Db, LedgerRecord, OutboxRecord, CompletionRecord, completion_key, max_int, status_processing,
  status_accepted, status_processed, status_failed, outbox_pending, outbox_published, outbox_failed,
  completion_processing, completion_processed, completion_failed,
}
use go_stripe_webhook_k8s.Store.Statements.{
  failed_row, reclaim_row, processed_row, retry_row, ledger_row, outbox_row, completion_row,
  update_outbox, insert_completion, retry_completion, reclaim_completion, update_processed,
  update_failed, set_completion, set_outbox,
}
use go_stripe_webhook_k8s.Store.Ordered.{Ascending, marked-Ascending}
use go_stripe_webhook_k8s.Store.Rely.{IsPreorder, Guarantees, raise_attempts-Ends}
use go_stripe_webhook_k8s.Store.Guarantee.{Respects}

abbrev pub OneOf : String → List String → Type 0
OneOf s [] = ⊥
OneOf s (t ∷ ts) = (s ≡ t) ⊎ OneOf s ts

-- processed_events_status_check
abbrev pub LedgerCheck : LedgerRecord → Type 0
LedgerCheck r =
    OneOf r.status (status_processing ∷ status_accepted ∷ status_processed ∷ status_failed ∷ [])

-- outbox_events_status_check, and the row's id is one that the sequence has given out.
abbrev pub OutboxCheck : ℕ → OutboxRecord → Type 0
OutboxCheck next r =
    OneOf r.status (outbox_pending ∷ outbox_published ∷ outbox_failed ∷ []) × (r.id < next)

-- consumer_completions_status_check, and the range of attempt_count.
abbrev pub CompletionCheck : CompletionRecord → Type 0
CompletionCheck r =
    OneOf r.status (completion_processing ∷ completion_processed ∷ completion_failed ∷ [])
    × (1 ≤ r.attempt_count)
    × (r.attempt_count ≤ max_int)

pub record IsValid (db : Db) : Type 0 where
  pub ledger_keyed : IsKeyed (λ (r : LedgerRecord). r.event_id) db.ledger
  pub outbox_keyed : IsKeyed (λ (r : OutboxRecord). r.event_id) db.outbox
  pub completions_keyed : IsKeyed completion_key db.completions
  pub referenced : (id : String) → ledger_row id db ≡ none → outbox_row id db ≡ none
  pub ledger_checked : All LedgerCheck db.ledger
  pub outbox_checked : All (OutboxCheck db.next_id) db.outbox
  pub outbox_ordered : Ascending db.outbox
  pub completions_checked : All CompletionCheck db.completions

module _ {R K : Type 0} ⦃e : Eq K⦄ (key : R → K) (P : R → Type 0) where
  pub insert_new-All : (r : R) (rows : List R) → P r → All P rows → All P (insert_new key r rows).0
  unfolding insert_new
  insert_new-All r rows p h = ground (arith, All-append P rows (r ∷ []) h (p, tt))

  -- A change that keeps `P` on the row of the key keeps it on all rows.
  pub update_where-All :
      (k : K) (test : R → Bool) (f : R → R) (rows : List R)
      → IsKeyed key rows
      → ((r : R) → row_of key k rows ≡ some r → test r ≡ true → P r → P (f r))
      → All P rows
      → All P (update_where key k test f rows)
  unfolding update_where row_of
  update_where-All k test f [] u keeps h = tt
  update_where-All k test f (r ∷ rows) u keeps h =
      let later : All P (update_where key k test f rows) =
        update_where-All k test f rows u.1 (λ x found. ground (arith, keeps x, ==-iff (key r) k))
          h.1 in
      ground (arith, keeps r)

  pub row_of-All : (k : K) (rows : List R) {r : R} → All P rows → row_of key k rows ≡ some r → P r
  unfolding row_of
  row_of-All k [] h found = cc
  row_of-All k (x ∷ rows) {r} h found = elim (Bool-cases (key x == k)) [
    | inl same ↦ subst P (ground arith) h.0
    | inr other ↦ row_of-All k rows h.1 (ground arith)
  ]

-- A relation between the tables before and after: validity is not lost.
abbrev pub KeepsValid : Db → Db → Type 0
KeepsValid a b = IsValid a → IsValid b

KeepsValid-IsPreorder : IsPreorder KeepsValid
KeepsValid-IsPreorder = record { reflexive = λ a h. h; transitive = λ a b c f g h. g (f h) }

insert_completion-valid :
    (id consumer event_type : String)
    → Guarantees KeepsValid (insert_completion id consumer event_type completion_processing)
unfolding insert_completion
insert_completion-valid id consumer event_type db v = record {
  ledger_keyed = v.ledger_keyed;
  outbox_keyed = v.outbox_keyed;
  completions_keyed = insert_new-IsKeyed completion_key _ db.completions v.completions_keyed;
  referenced = v.referenced;
  ledger_checked = v.ledger_checked;
  outbox_checked = v.outbox_checked;
  outbox_ordered = v.outbox_ordered;
  completions_checked =
      insert_new-All completion_key CompletionCheck _ db.completions
        (inl refl, omega arith, omega arith) v.completions_checked;
}

-- An UPDATE of the row of a completion is safe if the row that it makes is.
set_completion-valid :
    (id consumer old : String) (f : CompletionRecord → CompletionRecord) (db : Db)
    → ((r : CompletionRecord) → completion_key (f r) ≡ completion_key r)
    → ((r : CompletionRecord)
        → completion_row id consumer db ≡ some r
        → (r.status == old) ≡ true
        → CompletionCheck r
        → CompletionCheck (f r))
    → KeepsValid db (set_completion id consumer old f db)
unfolding set_completion
set_completion-valid id consumer old f db keeps safe v = record {
  ledger_keyed = v.ledger_keyed;
  outbox_keyed = v.outbox_keyed;
  completions_keyed =
      update_where-IsKeyed completion_key (id, consumer) _ f keeps db.completions
        v.completions_keyed;
  referenced = v.referenced;
  ledger_checked = v.ledger_checked;
  outbox_checked = v.outbox_checked;
  outbox_ordered = v.outbox_ordered;
  completions_checked =
      update_where-All completion_key CompletionCheck (id, consumer) _ f db.completions
        v.completions_keyed safe v.completions_checked;
}

retry_completion-valid :
    (id consumer : String)
    → Guarantees KeepsValid (retry_completion id consumer completion_processing)
unfolding retry_completion retry_row
retry_completion-valid id consumer db =
    raise_attempts-Ends KeepsValid id consumer completion_processing retry_row db
      λ r found same below.
        set_completion-valid id consumer completion_processing (retry_row db.now) db (λ x. refl)
          (λ x found' test h. ground arith)

reclaim_completion-valid :
    (id consumer : String)
    → Guarantees KeepsValid (reclaim_completion completion_processing id consumer completion_failed)
unfolding reclaim_completion reclaim_row
reclaim_completion-valid id consumer db =
    raise_attempts-Ends KeepsValid id consumer completion_failed (reclaim_row completion_processing)
      db
      λ r found same below.
        set_completion-valid id consumer completion_failed
          (reclaim_row completion_processing db.now) db (λ x. refl)
          (λ x found' test h. ground arith)

update_processed-valid :
    (id consumer : String)
    → Guarantees KeepsValid
        (update_processed completion_processed id consumer completion_processing)
unfolding update_processed processed_row
update_processed-valid id consumer db =
    set_completion-valid id consumer completion_processing _ db (λ x. refl)
      (λ x found test h. (inr (inl refl), h.1, h.2))

update_failed-valid :
    (msg id consumer : String)
    → Guarantees KeepsValid (update_failed completion_failed msg id consumer completion_processing)
unfolding update_failed failed_row
update_failed-valid msg id consumer db =
    set_completion-valid id consumer completion_processing _ db (λ x. refl)
      (λ x found test h. (inr (inr (inl refl)), h.1, h.2))

-- Publishing changes no key, and the row is found as before.
update_outbox-valid :
    (id : String) → Guarantees KeepsValid (update_outbox outbox_published id outbox_pending)
unfolding update_outbox
update_outbox-valid id db v = record {
  ledger_keyed = v.ledger_keyed;
  outbox_keyed = update_where-IsKeyed (λ r. r.event_id) id _ _ (λ r. refl) db.outbox v.outbox_keyed;
  completions_keyed = v.completions_keyed;
  referenced = λ j e. rw (
    row_of-update_where (λ r. r.event_id) id (λ r. r.status == outbox_pending)
        (set_outbox outbox_published db.now) (λ r. refl) j db.outbox,
    v.referenced j e,
  );
  ledger_checked = v.ledger_checked;
  outbox_checked =
      update_where-All (λ r. r.event_id) (OutboxCheck db.next_id) id _ _ db.outbox v.outbox_keyed
        (λ r found test h. (inr (inl refl), h.1)) v.outbox_checked;
  outbox_ordered = marked-Ascending db.now id db.outbox v.outbox_ordered;
  completions_checked = v.completions_checked;
}

-- Each statement by which a method outside of a transaction changes the tables keeps them valid.
pub KeepsValid-Respects : Respects KeepsValid
KeepsValid-Respects = record {
  preorder = KeepsValid-IsPreorder;
  inserts = insert_completion-valid;
  retries = retry_completion-valid;
  reclaims = reclaim_completion-valid;
  processes = update_processed-valid;
  fails = update_failed-valid;
  publishes = update_outbox-valid;
}
