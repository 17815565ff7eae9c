-- ===== src/Worker/Loop/Changes.antt =====
-- What a run of the worker's loop (cmd/worker/main.go) leaves of a store, if each record leaves it so.
use go_stripe_webhook_k8s.Base.{
  Bool, true, false, List, [], ◌∷◌, ◌++◌, Option, some, none, if◌then◌else◌,
}
use go_stripe_webhook_k8s.Go.{Error, Result, ok, err}
use go_stripe_webhook_k8s.Worker.Record.{Env, KafkaRecord}
use go_stripe_webhook_k8s.Worker.Partition.{commit_from, records_safe_to_commit}
use go_stripe_webhook_k8s.Worker.Loop.{
  FetchError, FetchTopicPartition, Poll, KafkaClient, Loop, log_errors, committed, commit_batch,
  partition_records, handle_partition, handle_partitions, round, run_worker,
}

module _ {S N K : Type 0} (kafka : KafkaClient K) (handle : KafkaRecord → Env S N → Bool × Env S N)
    (P : S → Type 0)
    (keeps : (rec : KafkaRecord) (w : Env S N) → P w.store → P (handle rec w).1.store) where
  batch_if :
      (b : Bool) (x y : List KafkaRecord × Env S N)
      → P x.1.store
      → P y.1.store
      → P (if b then x else y).1.store
  batch_if true x y p q = p
  batch_if false x y p q = q

  commit_from-keeps :
      (good records : List KafkaRecord) (w : Env S N)
      → P w.store
      → P (commit_from handle good records w).1.store
  commit_from-keeps good [] w p = p
  commit_from-keeps good (rec ∷ records) w p =
      batch_if (handle rec w).0 _ _
        (commit_from-keeps (good ++ rec ∷ []) records (handle rec w).1 (keeps rec w p))
        (keeps rec w p)

  committed-keeps :
      (x : Result (Unit {0}) × K) (w : Env S N)
      → P w.store
      → P (committed kafka handle x w).env.store
  committed-keeps (ok u, k) w p = p
  committed-keeps (err e, k) w p = p

  batch-keeps :
      (x : List KafkaRecord × Env S N) (k : K)
      → P x.1.store
      → P (commit_batch kafka handle x k).env.store
  batch-keeps ([], w) k p = p
  batch-keeps (rec ∷ recs, w) k p = committed-keeps (kafka.commit_records (rec ∷ recs) k) w p

  partition-keeps :
      (e : Option Error) (q : FetchTopicPartition) (l : Loop S N K)
      → P l.env.store
      → P (partition_records kafka handle e q l).env.store
  unfolding records_safe_to_commit
  partition-keeps (some e) q l p = p
  partition-keeps none q l p =
      batch-keeps (records_safe_to_commit handle q.records l.env) l.kafka
        (commit_from-keeps [] q.records l.env p)

  partitions-keeps :
      (qs : List FetchTopicPartition) (l : Loop S N K)
      → P l.env.store
      → P (handle_partitions kafka handle qs l).env.store
  unfolding handle_partition
  partitions-keeps [] l p = p
  partitions-keeps (q ∷ qs) l p =
      partitions-keeps qs (handle_partition kafka handle q l) (partition-keeps q.error q l p)

  errors-keeps :
      (es : List FetchError) (l : Loop S N K)
      → P l.env.store
      → P (log_errors kafka handle es l).env.store
  errors-keeps [] l p = p
  errors-keeps (e ∷ es) l p = errors-keeps es _ p

  loop_if :
      (b : Bool) (x y : Loop S N K)
      → P x.env.store
      → P y.env.store
      → P (if b then x else y).env.store
  loop_if true x y p q = p
  loop_if false x y p q = q

  round-keeps :
      (poll : Poll) (l : Loop S N K) → P l.env.store → P (round kafka handle poll l).env.store
  unfolding round
  round-keeps poll l p =
      loop_if poll.cancelled _ _ p
        (partitions-keeps poll.partitions _ (errors-keeps poll.errors l p))

  pub run_worker-keeps :
      (polls : List Poll) (l : Loop S N K)
      → P l.env.store
      → P (run_worker kafka handle polls l).env.store
  unfolding run_worker
  run_worker-keeps [] l p = p
  run_worker-keeps (poll ∷ polls) l p =
      loop_if poll.cancelled_after _ _ (round-keeps poll l p)
        (run_worker-keeps polls (round kafka handle poll l) (round-keeps poll l p))
