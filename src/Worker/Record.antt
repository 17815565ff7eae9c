-- ===== src/Worker/Record.antt =====
-- `handleRecord` (cmd/worker/main.go) and `handleJob` (cmd/worker/handle_job.go), over any store
-- and any downstream client.
use go_stripe_webhook_k8s.Worker.LogMsg.{
  consumer_completion_failed, stripe_job_consumed, stripe_job_downstream_failed,
  stripe_job_duplicate_skipped, stripe_job_handled, stripe_job_unmarshal_failed,
}
use go_stripe_webhook_k8s.Base.{
  ℕ, String, Bool, true, false, not, Option, none, some, List, [], ◌∷◌, ◌++◌, ◌==◌, string_eq,
  if◌then◌else◌,
}
use go_stripe_webhook_k8s.Go.{JobError, Bytes, Error, as_job_error, message, Result, ok, err}
use go_stripe_webhook_k8s.Monad.{M}
use go_stripe_webhook_k8s.Log.{Value, text, num, flag, Entry, log_info, log_error}
use go_stripe_webhook_k8s.Engine.{Job}
use go_stripe_webhook_k8s.Store.Schema.{
  CompletionClaim, CompletionClaimAction, claim_already_processed, claim_new, claim_retry,
  claim_retry_from_failed,
}
use go_stripe_webhook_k8s.Worker.JobErrors.{http_status, retryable_or, is_retryable_job_error}
use go_stripe_webhook_k8s.Worker.Downstream.{DownstreamClient}

-- `store.ConsumerCompletionStore`, over the state `S` of the store.
pub record ConsumerCompletionStore (S : Type 0) : Type 0 where
  pub claim_consumer_completion : String → String → String → M S CompletionClaim
  pub mark_consumer_processed : String → String → M S Bool
  pub mark_consumer_failed : String → String → String → M S Bool

-- The fields of `kgo.Record` that the worker reads.
pub record KafkaRecord : Type 0 where
  pub partition : ℕ
  pub offset : ℕ
  pub value : Bytes

-- The state that the worker acts on: the store, the network and the log.
pub record Env (S N : Type 0) : Type 0 where
  pub store : S
  pub net : N
  pub log : List Entry

abbrev pub http_status_or : ℕ → Option JobError → ℕ
http_status_or unknown none = unknown
http_status_or unknown (some je) = http_status je

abbrev pub is_already_processed : CompletionClaimAction → Bool
is_already_processed claim_already_processed = true
is_already_processed claim_new = false
is_already_processed claim_retry = false
is_already_processed claim_retry_from_failed = false

abbrev pub job_attrs : Job → List (String × Value)
job_attrs j = ("event_id", text j.stripe_event_id) ∷ ("event_type", text j.event_type) ∷ []

abbrev pub completion_failed_entry : String → String → Entry
completion_failed_entry id why =
    log_error consumer_completion_failed (("event_id", text id) ∷ ("error", text why) ∷ [])

abbrev pub record_attrs : Job → KafkaRecord → List (String × Value)
record_attrs j rec =
    job_attrs j ++ ("partition", num rec.partition) ∷ ("offset", num rec.offset) ∷ []

module _ {S N : Type 0} where
  abbrev pub logged : Entry → Env S N → Env S N
  logged e w = record w { log = w.log ++ e ∷ [] }

  abbrev pub on_store : {A : Type 0} → M S A → M (Env S N) A
  on_store m w = let (r, s) = m w.store in (r, record w { store = s })

  abbrev pub on_net : {A : Type 0} → M N A → M (Env S N) A
  on_net m w = let (r, n) = m w.net in (r, record w { net = n })

  abbrev pub delivered : Job → Result (Unit {0}) × Env S N → Result (Unit {0}) × Env S N
  delivered j (ok u, w) = (ok tt, logged (log_info stripe_job_handled (job_attrs j)) w)
  delivered j (err e, w) = (
    err e,
    logged
        (log_error stripe_job_downstream_failed (
          job_attrs j
          ++ ("retryable", flag (retryable_or true (as_job_error e)))
            ∷ ("http_status", num (http_status_or 0 (as_job_error e)))
            ∷ ("error", text (message e))
            ∷ []))
        w,
  )

  -- `handleJob`
  unfoldable pub handle_job : DownstreamClient N → Job → M (Env S N) (Unit {0})
  handle_job downstream j w = delivered j (on_net (downstream.deliver_job j) w)

  module _ (st : ConsumerCompletionStore S) (downstream : DownstreamClient N)
      (unmarshal : Bytes → Result Job) (consumer : String) (rec : KafkaRecord) where
    -- After `MarkConsumerProcessed`.
    abbrev pub after_processed : Job → Result Bool × Env S N → Bool × Env S N
    after_processed j (err e, w) =
        (false, logged (completion_failed_entry j.stripe_event_id (message e)) w)
    after_processed j (ok false, w) = (
      false,
      logged (completion_failed_entry j.stripe_event_id "mark processed: row not processing") w,
    )
    after_processed j (ok true, w) =
        (true, logged (log_info stripe_job_consumed (record_attrs j rec)) w)

    -- After `MarkConsumerFailed`, for the error of the job.
    abbrev pub after_failed : Job → Error → Result Bool × Env S N → Bool × Env S N
    after_failed j e (err m, w) =
        (false, logged (completion_failed_entry j.stripe_event_id (message m)) w)
    after_failed j e (ok b, w) = (not (is_retryable_job_error e), w)

    -- After `handleJob`.
    abbrev pub after_job : Job → Result (Unit {0}) × Env S N → Bool × Env S N
    after_job j (err e, w) =
        after_failed j e
          (on_store (st.mark_consumer_failed j.stripe_event_id consumer (message e)) w)
    after_job j (ok u, w) =
        after_processed j (on_store (st.mark_consumer_processed j.stripe_event_id consumer) w)

    -- After `ClaimConsumerCompletion`.
    abbrev pub after_claim : Job → Result CompletionClaim × Env S N → Bool × Env S N
    after_claim j (err e, w) =
        (false, logged (completion_failed_entry j.stripe_event_id (message e)) w)
    after_claim j (ok claim, w) =
        if is_already_processed claim.action
        then (true, logged (log_info stripe_job_duplicate_skipped (record_attrs j rec)) w)
        else after_job j (handle_job downstream j w)

    abbrev pub unmarshal_failed : String → Env S N → Bool × Env S N
    unmarshal_failed why w =
        (false, logged (log_error stripe_job_unmarshal_failed (("error", text why) ∷ [])) w)

    abbrev pub decoded : Result Job → Env S N → Bool × Env S N
    decoded (err e) w = unmarshal_failed (message e) w
    decoded (ok j) w =
        if j.stripe_event_id == ""
        then unmarshal_failed "missing stripe_event_id" w
        else after_claim j
            (on_store (st.claim_consumer_completion j.stripe_event_id consumer j.event_type) w)

    -- `handleRecord`: true if the record's offset may be committed.
    unfoldable pub handle_record : Env S N → Bool × Env S N
    handle_record w = decoded (unmarshal rec.value) w
