-- ===== src/Worker/Loop.antt =====
-- The loop of cmd/worker/main.go. The Kafka client (franz-go) is a parameter; what a poll returns,
-- and whether the context is cancelled, come as the list of the polls.
pub mod Batches
pub mod Changes
pub mod Stops
use go_stripe_webhook_k8s.Worker.LogMsg.{kafka_commit_failed, kafka_fetch_failed, shutting_down}
use go_stripe_webhook_k8s.Base.{
  ℕ, String, Bool, true, false, Option, none, some, List, [], ◌∷◌, ◌++◌, if◌then◌else◌,
}
use go_stripe_webhook_k8s.Go.{Error, message, Result, ok, err}
use go_stripe_webhook_k8s.Monad.{M}
use go_stripe_webhook_k8s.Log.{Value, text, num, Entry, log_info, log_error}
use go_stripe_webhook_k8s.Worker.Record.{Env, KafkaRecord, logged}
use go_stripe_webhook_k8s.Worker.Partition.{records_safe_to_commit}

-- `kgo.FetchError`
pub record FetchError : Type 0 where
  pub topic : String
  pub partition : ℕ
  pub error : Error

-- `kgo.FetchTopicPartition`
pub record FetchTopicPartition : Type 0 where
  pub topic : String
  pub partition : ℕ
  pub error : Option Error
  pub records : List KafkaRecord

-- A round of the loop: what `PollFetches` returned, and whether the context was cancelled when the
-- round checked it first and last.
pub record Poll : Type 0 where
  pub errors : List FetchError
  pub partitions : List FetchTopicPartition
  pub cancelled : Bool
  pub cancelled_after : Bool

-- What the loop calls of `kgo.Client`, over its state `K`.
pub record KafkaClient (K : Type 0) : Type 0 where
  pub commit_records : List KafkaRecord → M K (Unit {0})
  pub allow_rebalance : K → K

pub record Loop (S N K : Type 0) : Type 0 where
  pub env : Env S N
  pub kafka : K

abbrev pub fetch_failed_entry : Error → String → ℕ → Entry
fetch_failed_entry e topic partition =
    log_error kafka_fetch_failed
      (("error", text (message e)) ∷ ("topic", text topic) ∷ ("partition", num partition) ∷ [])

module _ {S N K : Type 0} (kafka : KafkaClient K)
    (handle : KafkaRecord → Env S N → Bool × Env S N) where
  abbrev pub log_to : Entry → Loop S N K → Loop S N K
  log_to e l = record l { env = logged e l.env }

  abbrev pub log_errors : List FetchError → Loop S N K → Loop S N K
  log_errors [] l = l
  log_errors (e ∷ es) l = log_errors es (log_to (fetch_failed_entry e.error e.topic e.partition) l)

  abbrev pub committed : Result (Unit {0}) × K → Env S N → Loop S N K
  committed (ok u, k) w = record { env = w; kafka = k }
  committed (err e, k) w =
      log_to (log_error kafka_commit_failed (("error", text (message e)) ∷ []))
        (record { env = w; kafka = k })

  -- `if len(committed) > 0 { client.CommitRecords(…) }`
  abbrev pub commit_batch : List KafkaRecord × Env S N → K → Loop S N K
  commit_batch ([], w) k = record { env = w; kafka = k }
  commit_batch (rec ∷ records, w) k = committed (kafka.commit_records (rec ∷ records) k) w

  abbrev pub partition_records : Option Error → FetchTopicPartition → Loop S N K → Loop S N K
  partition_records (some e) p l = log_to (fetch_failed_entry e p.topic p.partition) l
  partition_records none p l = commit_batch (records_safe_to_commit handle p.records l.env) l.kafka

  -- The callback of `EachPartition`.
  unfoldable pub handle_partition : FetchTopicPartition → Loop S N K → Loop S N K
  handle_partition p l = partition_records p.error p l

  abbrev pub handle_partitions : List FetchTopicPartition → Loop S N K → Loop S N K
  handle_partitions [] l = l
  handle_partitions (p ∷ ps) l = handle_partitions ps (handle_partition p l)

  abbrev pub allow_rebalance : Loop S N K → Loop S N K
  allow_rebalance l = record l { kafka = kafka.allow_rebalance l.kafka }

  -- A round of the `for` loop.
  unfoldable pub round : Poll → Loop S N K → Loop S N K
  round p l =
      allow_rebalance
        (if p.cancelled then l else handle_partitions p.partitions (log_errors p.errors l))

  -- The loop over the polls that happen; it ends at the first round after which the context is
  -- cancelled. What is left of the list then never happens.
  unfoldable pub run_worker : List Poll → Loop S N K → Loop S N K
  run_worker [] l = l
  run_worker (p ∷ polls) l =
      let l' = round p l in
      let rest = run_worker polls l' in
      if p.cancelled_after then log_to (log_info shutting_down []) l' else rest
