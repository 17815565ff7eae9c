-- ===== src/Worker/Loop/Stops.antt =====
-- The rounds of the worker's loop (cmd/worker/main.go) up to its end, and its end when its context is
-- cancelled.
use go_stripe_webhook_k8s.Base.{
  true≢false, ◌≡◌, ◌⊎◌, refl, sym, ◌∙◌, ap, subst, Bool, true, false, inl, inr, List, [], ◌∷◌, ◌++◌,
  All, if◌then◌else◌,
}
use go_stripe_webhook_k8s.Log.{log_info}
use go_stripe_webhook_k8s.Worker.LogMsg.{shutting_down}
use go_stripe_webhook_k8s.Worker.Record.{Env, KafkaRecord}
use go_stripe_webhook_k8s.Worker.Loop.Batches.{Done, handle_partition-Done}
use go_stripe_webhook_k8s.Worker.Loop.{
  Poll, FetchTopicPartition, KafkaClient, Loop, log_to, log_errors, handle_partition,
  handle_partitions, allow_rebalance, round, run_worker,
}

module _ {S N K : Type 0} (kafka : KafkaClient K)
    (handle : KafkaRecord → Env S N → Bool × Env S N) where
  -- The partitions of a poll, each done once and in their order.
  pub data Handled : Loop S N K → List FetchTopicPartition → Loop S N K → Type 0 where
    none_left : {l : Loop S N K} → Handled l [] l
    handled :
        {l m v : Loop S N K} (q : FetchTopicPartition) {qs : List FetchTopicPartition}
        → Done kafka handle l q m
        → Handled m qs v
        → Handled l (q ∷ qs) v

  -- What the polls that happened did: of each the errors were logged and all partitions handled,
  -- unless the context was cancelled before, and then a rebalance was allowed.
  pub data Served : Loop S N K → List Poll → Loop S N K → Type 0 where
    over : {l : Loop S N K} → Served l [] l
    worked :
        {l m v : Loop S N K} (p : Poll) {polls : List Poll}
        → p.cancelled ≡ false
        → Handled (log_errors kafka handle p.errors l) p.partitions m
        → Served (record m { kafka = kafka.allow_rebalance m.kafka }) polls v
        → Served l (p ∷ polls) v
    skipped :
        {l v : Loop S N K} (p : Poll) {polls : List Poll}
        → p.cancelled ≡ true
        → Served (record l { kafka = kafka.allow_rebalance l.kafka }) polls v
        → Served l (p ∷ polls) v

  -- The polls up to the first after which the context is cancelled, that one too; and the result.
  pub record HasStopped (polls : List Poll) (l v : Loop S N K) : Type 0 where
    pub before : List Poll
    pub last : Poll
    pub rest : List Poll
    pub left : Loop S N K
    pub split : polls ≡ before ++ last ∷ rest
    pub uncancelled : All (λ (p : Poll). p.cancelled_after ≡ false) before
    pub cancelled : last.cancelled_after ≡ true
    pub served : Served l (before ++ last ∷ []) left
    pub logged : v ≡ log_to kafka handle (log_info shutting_down []) left

  partitions-Handled :
      (qs : List FetchTopicPartition) (l : Loop S N K)
      → Handled l qs (handle_partitions kafka handle qs l)
  partitions-Handled [] l = none_left
  partitions-Handled (q ∷ qs) l =
      handled q (handle_partition-Done kafka handle l q)
        (partitions-Handled qs (handle_partition kafka handle q l))

  chosen :
      (b : Bool) (x y : Loop S N K)
      → ((b ≡ true) × ((if b then x else y) ≡ x)) ⊎ ((b ≡ false) × ((if b then x else y) ≡ y))
  chosen true x y = inl (refl, refl)
  chosen false x y = inr (refl, refl)

  -- A round, by whether the context is cancelled before it.
  round-Served :
      (p : Poll) (polls : List Poll) (l v : Loop S N K)
      → Served (round kafka handle p l) polls v
      → Served l (p ∷ polls) v
  unfolding round
  round-Served p polls l v rest =
      let work = handle_partitions kafka handle p.partitions (log_errors kafka handle p.errors l) in
      let Later : Loop S N K → Type 0 = λ m. Served (allow_rebalance kafka handle m) polls v in
      elim (chosen p.cancelled l work) [
        | inl (cancelled, same) ↦ skipped p cancelled (subst Later same rest)
        | inr (goes, same) ↦
            worked p goes (partitions-Handled p.partitions (log_errors kafka handle p.errors l))
              (subst Later same rest)
      ]

  -- One round more, after which the context is not cancelled.
  later-HasStopped :
      (p : Poll) (polls : List Poll) (l v : Loop S N K)
      → p.cancelled_after ≡ false
      → HasStopped polls (round kafka handle p l) v
      → HasStopped (p ∷ polls) l v
  later-HasStopped p polls l v goes h = record {
    before = p ∷ h.before;
    last = h.last;
    rest = h.rest;
    left = h.left;
    split = ap (λ ps. p ∷ ps) h.split;
    uncancelled = (goes, h.uncancelled);
    cancelled = h.cancelled;
    served = round-Served p _ l h.left h.served;
    logged = h.logged;
  }

  last-HasStopped :
      (p : Poll) (polls : List Poll) (l : Loop S N K)
      → p.cancelled_after ≡ true
      → HasStopped
          (p ∷ polls)
          l
          (log_to kafka handle (log_info shutting_down []) (round kafka handle p l))
  last-HasStopped p polls l stops = record {
    before = [];
    last = p;
    rest = polls;
    left = round kafka handle p l;
    split = refl;
    uncancelled = tt;
    cancelled = stops;
    served = round-Served p [] l _ over;
    logged = refl;
  }

  -- If the context is cancelled after some round, the loop ends with the first such round: in each
  -- round up to it, that one too, unless the context was cancelled before, the errors of the poll
  -- were logged and its partitions handled in their order, of each that came without an error the
  -- records up to the first that is refused, with one commit of exactly the records before it, if
  -- there are any; then a rebalance was allowed; nothing is done of the polls after it; and then the
  -- shutdown is logged.
  pub run_worker-stops :
      (before rest : List Poll) (p : Poll) (l : Loop S N K)
      → p.cancelled_after ≡ true
      → HasStopped (before ++ p ∷ rest) l (run_worker kafka handle (before ++ p ∷ rest) l)
  unfolding run_worker
  run_worker-stops [] rest p l stops =
      let end = log_to kafka handle (log_info shutting_down []) (round kafka handle p l) in
      elim (chosen p.cancelled_after end (run_worker kafka handle rest (round kafka handle p l))) [
        | inl (yes', same) ↦
            subst (HasStopped (p ∷ rest) l) (sym same) (last-HasStopped p rest l stops)
        | inr (goes, same) ↦ absurd (true≢false (sym stops ∙ goes))
      ]
  run_worker-stops (q ∷ before) rest p l stops =
      let end = log_to kafka handle (log_info shutting_down []) (round kafka handle q l) in
      let polls = before ++ p ∷ rest in
      elim (chosen q.cancelled_after end (run_worker kafka handle polls (round kafka handle q l))) [
        | inl (first, same) ↦
            subst (HasStopped (q ∷ polls) l) (sym same) (last-HasStopped q polls l first)
        | inr (goes, same) ↦ subst (HasStopped (q ∷ polls) l) (sym same) (
            later-HasStopped q polls l _ goes
              (run_worker-stops before rest p (round kafka handle q l) stops))
      ]
