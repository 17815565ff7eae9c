-- ===== src/Worker/Loop/Batches.antt =====
-- What the callback of `EachPartition` (cmd/worker/main.go) does with the batch of a partition.
use go_stripe_webhook_k8s.Base.{
  sym, subst, ◌≡◌, refl, Bool, Option, some, none, List, [], ◌∷◌, ◌++◌,
}
use go_stripe_webhook_k8s.Go.{Error, message, Result, ok, err}
use go_stripe_webhook_k8s.Log.{text, log_error}
use go_stripe_webhook_k8s.Worker.LogMsg.{kafka_commit_failed}
use go_stripe_webhook_k8s.Worker.Record.{Env, KafkaRecord, logged}
use go_stripe_webhook_k8s.Worker.Partition.{records_safe_to_commit}
use go_stripe_webhook_k8s.Worker.Partition.Laws.{Stops, records_safe_to_commit-prefix}
use go_stripe_webhook_k8s.Worker.Loop.{
  FetchTopicPartition, KafkaClient, Loop, log_to, fetch_failed_entry, committed, commit_batch,
  partition_records, handle_partition,
}

module _ {S N K : Type 0} (kafka : KafkaClient K)
    (handle : KafkaRecord → Env S N → Bool × Env S N) where
  -- The ends of a partition: its error is logged and no record handled; or its records are handled
  -- up to the first that is refused, and those before it are committed, in one call, unless there
  -- is none; a failed commit is logged.
  pub data Done (l : Loop S N K) (q : FetchTopicPartition) : Loop S N K → Type 0 where
    fetch_failed :
        (e : Error)
        → q.error ≡ some e
        → Done l q (log_to kafka handle (fetch_failed_entry e q.topic q.partition) l)
    none_committed :
        (w : Env S N)
        → q.error ≡ none
        → Stops handle [] q.records l.env w
        → Done l q (record { env = w; kafka = l.kafka })
    batch_committed :
        (w : Env S N) (k : K) (rec : KafkaRecord) (records rest : List KafkaRecord)
        → q.error ≡ none
        → q.records ≡ (rec ∷ records) ++ rest
        → Stops handle (rec ∷ records) rest l.env w
        → kafka.commit_records (rec ∷ records) l.kafka ≡ (ok tt, k)
        → Done l q (record { env = w; kafka = k })
    commit_failed :
        (w : Env S N) (k : K) (rec : KafkaRecord) (records rest : List KafkaRecord) (e : Error)
        → q.error ≡ none
        → q.records ≡ (rec ∷ records) ++ rest
        → Stops handle (rec ∷ records) rest l.env w
        → kafka.commit_records (rec ∷ records) l.kafka ≡ (err e, k)
        → Done l q (record {
          env = logged (log_error kafka_commit_failed (("error", text (message e)) ∷ [])) w;
          kafka = k;
        })

  answered :
      (l : Loop S N K) (q : FetchTopicPartition) (rec : KafkaRecord)
      (records rest : List KafkaRecord) (w : Env S N) (x : Result (Unit {0}) × K)
      → q.error ≡ none
      → q.records ≡ (rec ∷ records) ++ rest
      → Stops handle (rec ∷ records) rest l.env w
      → kafka.commit_records (rec ∷ records) l.kafka ≡ x
      → Done l q (committed kafka handle x w)
  answered l q rec records rest w (ok u, k) = batch_committed w k rec records rest
  answered l q rec records rest w (err e, k) = commit_failed w k rec records rest e

  batch :
      (l : Loop S N K) (q : FetchTopicPartition) (c : List KafkaRecord × Env S N)
      (rest : List KafkaRecord)
      → q.error ≡ none
      → q.records ≡ c.0 ++ rest
      → Stops handle c.0 rest l.env c.1
      → Done l q (commit_batch kafka handle c l.kafka)
  batch l q ([], w) rest h split stops =
      none_committed w h (subst (λ records. Stops handle [] records l.env w) (sym split) stops)
  batch l q (rec ∷ records, w) rest h split stops =
      answered l q rec records rest w (kafka.commit_records (rec ∷ records) l.kafka) h split stops
        refl

  by_error :
      (l : Loop S N K) (q : FetchTopicPartition) (o : Option Error)
      → q.error ≡ o
      → Done l q (partition_records kafka handle o q l)
  by_error l q (some e) h = fetch_failed e h
  by_error l q none h =
      let (rest, split, stops) = records_safe_to_commit-prefix handle q.records l.env in
      batch l q (records_safe_to_commit handle q.records l.env) rest h split stops

  pub handle_partition-Done :
      (l : Loop S N K) (q : FetchTopicPartition) → Done l q (handle_partition kafka handle q l)
  unfolding handle_partition
  handle_partition-Done l q = by_error l q q.error refl
