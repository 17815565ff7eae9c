-- ===== src/Worker/Settles.antt =====
-- The completion of an event, where `handleRecord` lets its offset be committed.
use go_stripe_webhook_k8s.Base.{
  ==-iff, ◌≢◌, String, ◌≡◌, refl, inl, sym, subst, Bool, true, false, Option, none, some, ◌==◌,
  string_eq, if◌then◌else◌, pair_eq, arith,
}
use go_stripe_webhook_k8s.Go.{Bytes, Error, Result, ok, err, message}
use go_stripe_webhook_k8s.Engine.{Job}
use go_stripe_webhook_k8s.Store.Schema.{
  CompletionClaimAction, CompletionClaim, CompletionRecord, completion_key, completion_processed,
  claim_already_processed, claim_new, claim_retry, claim_retry_from_failed,
}
use go_stripe_webhook_k8s.Store.Statements.{completion_row}
use go_stripe_webhook_k8s.Store.Driver.{Session}
use go_stripe_webhook_k8s.Store.Postgres.{
  claim_consumer_completion, mark_consumer_processed, mark_consumer_failed,
}
use go_stripe_webhook_k8s.Store.Guarantee.{claim_consumer_completion-Keeps}
use go_stripe_webhook_k8s.Store.Valid.{KeepsValid-Respects, CompletionCheck, row_of-All}
use go_stripe_webhook_k8s.Store.Evolves.{Evolves-Respects}
use go_stripe_webhook_k8s.Store.Marked.{
  HasStatus, IsSettled, mark_consumer_processed-true, mark_consumer_failed-settles,
  claim-already_processed,
}
use go_stripe_webhook_k8s.Store.Claimed.{
  Exists, CompletionLe-Exists, claim_consumer_completion-Exists,
}
use go_stripe_webhook_k8s.Store.Sound.{Sound, Sound-after, arrive-Sound, arrive-Evolves}
use go_stripe_webhook_k8s.Worker.Downstream.{DownstreamClient}
use go_stripe_webhook_k8s.Worker.Record.{
  on_net, delivered, Env, KafkaRecord, on_store, after_processed, after_failed, after_job,
  after_claim, decoded, handle_job, handle_record, is_already_processed,
}
use go_stripe_webhook_k8s.Worker.Postgres.{postgres}

HasStatus-IsSettled : (o : Option CompletionRecord) → HasStatus completion_processed o → IsSettled o
HasStatus-IsSettled none h = h
HasStatus-IsSettled (some r) h = inl h

Exists-some : (o : Option CompletionRecord) → Exists o → (r : CompletionRecord) × (o ≡ some r)
Exists-some none h = absurd h
Exists-some (some r) h = (r, refl)

module _ {N : Type 0} (downstream : DownstreamClient N) (unmarshal : Bytes → Result Job)
    (consumer : String) (rec : KafkaRecord) where
  processed_commits :
      (j : Job) (x : Result Bool × Env Session N)
      → (after_processed postgres downstream unmarshal consumer rec j x).0 ≡ true
      → (x.0 ≡ ok true)
        × ((after_processed postgres downstream unmarshal consumer rec j x).1.store ≡ x.1.store)
  processed_commits j (ok true, w) h = (refl, refl)
  processed_commits j (ok false, w) h = cc
  processed_commits j (err e, w) h = cc

  failed_commits :
      (j : Job) (e : Error) (x : Result Bool × Env Session N)
      → (after_failed postgres downstream unmarshal consumer rec j e x).0 ≡ true
      → (b : Bool) × (x.0 ≡ ok b)
        × ((after_failed postgres downstream unmarshal consumer rec j e x).1.store ≡ x.1.store)
  failed_commits j e (ok b, w) h = (b, refl, refl)
  failed_commits j e (err m, w) h = cc

  abbrev row_after : Job → Bool × Env Session N → Option CompletionRecord
  row_after j x = completion_row j.stripe_event_id consumer x.1.store.db

  job_settles :
      (j : Job) (x : Result (Unit {0}) × Env Session N)
      → Sound x.1.store
      → Exists (completion_row j.stripe_event_id consumer x.1.store.db)
      → (after_job postgres downstream unmarshal consumer rec j x).0 ≡ true
      → IsSettled (row_after j (after_job postgres downstream unmarshal consumer rec j x))
  job_settles j (ok u, w) sound exists h =
      let (marked, same) =
        processed_commits j (on_store (mark_consumer_processed j.stripe_event_id consumer) w) h in
      subst (λ s. IsSettled (completion_row j.stripe_event_id consumer s.db)) (sym same)
        (HasStatus-IsSettled _ (
          mark_consumer_processed-true j.stripe_event_id consumer w.store
            (arrive-Sound w.store sound).valid.completions_keyed marked))
  job_settles j (err e, w) sound exists h =
      let (b, marked, same) =
        failed_commits j e
          (on_store (mark_consumer_failed j.stripe_event_id consumer (message e)) w) h in
      let (r, found) = Exists-some _ (
        CompletionLe-Exists _ _
          ((arrive-Evolves w.store sound).completions_kept j.stripe_event_id consumer) exists) in
      subst (λ s. IsSettled (completion_row j.stripe_event_id consumer s.db)) (sym same)
        (mark_consumer_failed-settles j.stripe_event_id consumer w.store (message e) r b found
          (row_of-All completion_key CompletionCheck (j.stripe_event_id, consumer) _
            (arrive-Sound w.store sound).valid.completions_checked found)
          marked)

  delivered_store :
      (j : Job) (x : Result (Unit {0}) × Env Session N) → (delivered j x).1.store ≡ x.1.store
  delivered_store j (ok u, w) = refl
  delivered_store j (err e, w) = refl

  handle_job_store : (j : Job) (w : Env Session N) → (handle_job downstream j w).1.store ≡ w.store
  unfolding handle_job
  handle_job_store j w = delivered_store j (on_net (downstream.deliver_job j) w)

  branch_settles :
      (j : Job) (b : Bool) (skipped done : Bool × Env Session N)
      → (b ≡ true → IsSettled (row_after j skipped))
      → (b ≡ false → done.0 ≡ true → IsSettled (row_after j done))
      → (if b then skipped else done).0 ≡ true
      → IsSettled (row_after j (if b then skipped else done))
  branch_settles j true skipped done p q h = p refl
  branch_settles j false skipped done p q h = q refl h

  already_action :
      (a : CompletionClaimAction) → is_already_processed a ≡ true → a ≡ claim_already_processed
  already_action claim_already_processed h = refl
  already_action claim_new h = cc
  already_action claim_retry h = cc
  already_action claim_retry_from_failed h = cc

  claim_settles :
      (j : Job) (x : Result CompletionClaim × Env Session N)
      → Sound x.1.store
      → ((c : CompletionClaim)
          → x.0 ≡ ok c
          → Exists (completion_row j.stripe_event_id consumer x.1.store.db))
      → ((c : CompletionClaim)
          → x.0 ≡ ok c
          → c.action ≡ claim_already_processed
          → HasStatus completion_processed (completion_row j.stripe_event_id consumer x.1.store.db))
      → (after_claim postgres downstream unmarshal consumer rec j x).0 ≡ true
      → IsSettled (row_after j (after_claim postgres downstream unmarshal consumer rec j x))
  claim_settles j (err e, w) sound exists final h = cc
  claim_settles j (ok c, w) sound exists final h =
      branch_settles j (is_already_processed c.action) _ _
        (λ yes_. HasStatus-IsSettled _ (final c refl (already_action c.action yes_)))
        (λ no_.
          job_settles j (handle_job downstream j w) (subst Sound (sym (handle_job_store j w)) sound)
            (subst (λ s. Exists (completion_row j.stripe_event_id consumer s.db))
              (sym (handle_job_store j w)) (exists c refl)))
        h

  after_decoding : Job → Env Session N → Bool × Env Session N
  after_decoding j w =
      after_claim postgres downstream unmarshal consumer rec j
        (on_store (claim_consumer_completion j.stripe_event_id consumer j.event_type) w)

  claimed_settles :
      (j : Job) (w : Env Session N)
      → Sound w.store
      → (after_decoding j w).0 ≡ true
      → IsSettled (row_after j (after_decoding j w))
  unfolding after_decoding
  claimed_settles j w sound h =
      claim_settles j
        (on_store (claim_consumer_completion j.stripe_event_id consumer j.event_type) w)
        (Sound-after _ w.store
          (claim_consumer_completion-Keeps KeepsValid-Respects j.stripe_event_id consumer
            j.event_type)
          (claim_consumer_completion-Keeps Evolves-Respects j.stripe_event_id consumer j.event_type)
          sound)
        (λ c e.
          claim_consumer_completion-Exists j.stripe_event_id consumer j.event_type w.store c
            sound.closed sound.rely_evolves e)
        (λ c e a. claim-already_processed j.stripe_event_id consumer w.store j.event_type c e a) h

  guarded_settles :
      (j : Job) (b : Bool) (w : Env Session N) (refusal : Bool × Env Session N)
      → Sound w.store
      → refusal.0 ≡ false
      → (if b then refusal else after_decoding j w).0 ≡ true
      → (b ≡ false) × IsSettled (row_after j (if b then refusal else after_decoding j w))
  guarded_settles j true w refusal sound f h = cc
  guarded_settles j false w refusal sound f h = (refl, claimed_settles j w sound h)

  decoded_settles :
      (r : Result Job) (w : Env Session N)
      → Sound w.store
      → (decoded postgres downstream unmarshal consumer rec r w).0 ≡ true
      → (j : Job) × (r ≡ ok j)
        × (j.stripe_event_id ≢ "")
        × IsSettled (row_after j (decoded postgres downstream unmarshal consumer rec r w))
  unfolding after_decoding
  decoded_settles (err e) w sound h = cc
  decoded_settles (ok j) w sound h =
      let (named, settled) = guarded_settles j (j.stripe_event_id == "") w _ sound refl h in
      (j, refl, ground (arith, ==-iff j.stripe_event_id ""), settled)

  -- A record whose offset `handleRecord` lets be committed was decoded to a job with an id, and the
  -- completion of that event by this consumer is processed or failed: on any valid database, if the
  -- other clients keep it valid and undo nothing, and however each call ends.
  pub handle_record-settles :
      (w : Env Session N)
      → Sound w.store
      → (handle_record postgres downstream unmarshal consumer rec w).0 ≡ true
      → (j : Job) × (unmarshal rec.value ≡ ok j)
        × (j.stripe_event_id ≢ "")
        × IsSettled (
            completion_row j.stripe_event_id consumer
              (handle_record postgres downstream unmarshal consumer rec w).1.store.db)
  unfolding handle_record
  handle_record-settles w sound h = decoded_settles (unmarshal rec.value) w sound h
