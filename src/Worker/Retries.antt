-- ===== src/Worker/Retries.antt =====
-- A record that Kafka gives to the worker (cmd/worker/main.go) until its offset is committed, and a
-- downstream that answers in the end.
use go_stripe_webhook_k8s.Base.{
  ℕ, zero, suc, ◌+◌, ◌≤◌, ◌<◌, ◌≡◌, ◌≢◌, List, refl, sym, ◌∙◌, ap, subst, String, Bool, true, false,
  not, some, if◌then◌else◌, arith,
}
use go_stripe_webhook_k8s.Go.{Bytes, Error, message, Result, ok, err}
use go_stripe_webhook_k8s.Log.{Entry}
use go_stripe_webhook_k8s.Engine.{Job}
use go_stripe_webhook_k8s.Store.Schema.{Db, max_int}
use go_stripe_webhook_k8s.Store.Driver.{Session}
use go_stripe_webhook_k8s.Store.Valid.{IsValid}
use go_stripe_webhook_k8s.Store.Lifecycle.{
  calm, phase, Phase, absent, processing, processed, failed, unknown, attempts,
}
use go_stripe_webhook_k8s.Worker.JobErrors.{is_retryable_job_error}
use go_stripe_webhook_k8s.Worker.Attempt.{Ends, work, attempt}
use go_stripe_webhook_k8s.Worker.Downstream.{DownstreamClient}
use go_stripe_webhook_k8s.Worker.Record.{Env, KafkaRecord, handle_record}
use go_stripe_webhook_k8s.Worker.Postgres.{postgres}
use go_stripe_webhook_k8s.Worker.Calm.{record-Ends, record-Calm}

-- The event is not processed, and `m` attempts were made.
abbrev pub HasMade : ℕ → Phase → Type 0
HasMade m absent = m ≡ 0
HasMade m (processing i) = m ≡ i
HasMade m (failed i e) = m ≡ i
HasMade m (processed i) = ⊥
HasMade m unknown = ⊥

HasMade-known : (m : ℕ) (p : Phase) → HasMade m p → p ≢ unknown
HasMade-known m unknown h e = h
HasMade-known m absent h e = cc
HasMade-known m (processing i) h e = cc
HasMade-known m (failed i x) h e = cc
HasMade-known m (processed i) h e = cc

HasMade-attempts : (m : ℕ) (p : Phase) → HasMade m p → attempts p ≤ m
HasMade-attempts m absent h = omega arith
HasMade-attempts m (processing i) h = omega (arith, h)
HasMade-attempts m (failed i e) h = omega (arith, h)
HasMade-attempts m (processed i) h = absurd h
HasMade-attempts m unknown h = absurd h

module _ {N : Type 0} where
  HasMade-work :
      (m : ℕ) (p : Phase) (net : N) (d : Result (Unit {0}) × N)
      → HasMade m p
      → work p net d ≡ ((attempt (m + 1) d.0).0, (attempt (m + 1) d.0).1, d.1)
  HasMade-work m absent net d h = rw h refl
  HasMade-work m (processing i) net d h = rw h refl
  HasMade-work m (failed i e) net d h = rw h refl
  HasMade-work m (processed i) net d h = absurd h
  HasMade-work m unknown net d h = absurd h

module _ {N : Type 0} (downstream : DownstreamClient N) where
  -- `k` deliveries of the job fail in a way that is to be retried, and the next is taken.
  abbrev pub Takes : ℕ → Job → N → Type 0
  Takes zero j net = (downstream.deliver_job j net).0 ≡ ok tt
  Takes (suc k) j net =
      ((e : Error) × ((downstream.deliver_job j net).0 ≡ err e) × (is_retryable_job_error e ≡ true))
      × Takes k j (downstream.deliver_job j net).1

  -- The network after `k` deliveries.
  abbrev pub after_deliveries : ℕ → Job → N → N
  after_deliveries zero j net = net
  after_deliveries (suc k) j net = after_deliveries k j (downstream.deliver_job j net).1

  module _ (unmarshal : Bytes → Result Job) (consumer : String) (rec : KafkaRecord) where
    -- Kafka gives the record again as long as its offset is not committed, `n` times at most.
    abbrev pub until_committed : ℕ → Env Session N → Bool × Env Session N
    until_committed zero w = (false, w)
    until_committed (suc n) w =
        let x = handle_record postgres downstream unmarshal consumer rec w in
        let rest = until_committed n x.1 in if x.0 then x else rest

    -- One attempt more, on a session that nobody disturbs.
    one_attempt :
        (m : ℕ) (j : Job) (p : Phase) (w : Env Session N)
        → unmarshal rec.value ≡ ok j
        → j.stripe_event_id ≢ ""
        → calm w.store.used w.store.db ≡ w.store
        → IsValid w.store.db
        → phase j.stripe_event_id consumer w.store.db ≡ p
        → HasMade m p
        → m < max_int
        → let d = downstream.deliver_job j w.net in
          Ends downstream unmarshal consumer rec j
            ((attempt (m + 1) d.0).0, (attempt (m + 1) d.0).1, d.1)
            (handle_record postgres downstream unmarshal consumer rec w)
    one_attempt m j p w decodes named eta valid current made room =
        subst
          (λ end.
            Ends downstream unmarshal consumer rec j end
              (handle_record postgres downstream unmarshal consumer rec w))
          (HasMade-work m p w.net (downstream.deliver_job j w.net) made)
          (record-Ends downstream unmarshal consumer rec j w.store p w.net w.log decodes named eta
            valid current (HasMade-known m p made) (omega (arith, HasMade-attempts m p made)))

    committed_if :
        (b : Bool) (j : Job) (end : Bool × Phase × N) (x rest : Bool × Env Session N)
        → b ≡ true
        → Ends downstream unmarshal consumer rec j end x
        → Ends downstream unmarshal consumer rec j end (if b then x else rest)
    committed_if true j end x rest e h = h
    committed_if false j end x rest e h = cc

    refused_if :
        (b : Bool) (j : Job) (end : Bool × Phase × N) (x rest : Bool × Env Session N)
        → b ≡ false
        → Ends downstream unmarshal consumer rec j end rest
        → Ends downstream unmarshal consumer rec j end (if b then x else rest)
    refused_if true j end x rest e h = cc
    refused_if false j end x rest e h = h

    -- Enough tries from where `m` attempts were made.
    until_committed-Ends :
        (k n m : ℕ) (j : Job) (p : Phase) (w : Env Session N)
        → k < n
        → m + k < max_int
        → unmarshal rec.value ≡ ok j
        → j.stripe_event_id ≢ ""
        → calm w.store.used w.store.db ≡ w.store
        → IsValid w.store.db
        → phase j.stripe_event_id consumer w.store.db ≡ p
        → HasMade m p
        → Takes k j w.net
        → Ends downstream unmarshal consumer rec j
            (true, processed (m + k + 1), after_deliveries (suc k) j w.net)
            (until_committed n w)
    until_committed-Ends k zero m j p w enough room decodes named eta valid current made takes =
        absurd (omega arith)
    until_committed-Ends zero (suc n) m j p w enough room decodes named eta valid current made
          takes =
        let d = downstream.deliver_job j w.net in
        let x = handle_record postgres downstream unmarshal consumer rec w in
        let first =
          subst
            (λ r.
              Ends downstream unmarshal consumer rec j
                ((attempt (m + 1) r).0, (attempt (m + 1) r).1, d.1) x)
            takes
            (one_attempt m j p w decodes named eta valid current made (omega (arith, room))) in
        committed_if x.0 j _ x _ first.0 (first.0, first.1 ∙ ap processed (omega arith), first.2)
    until_committed-Ends (suc k) (suc n) m j p w enough room decodes named eta valid current made
          ((e, fails, retries), takes) =
        let d = downstream.deliver_job j w.net in
        let x = handle_record postgres downstream unmarshal consumer rec w in
        let first =
          subst
            (λ r.
              Ends downstream unmarshal consumer rec j
                ((attempt (m + 1) r).0, (attempt (m + 1) r).1, d.1) x)
            fails
            (one_attempt m j p w decodes named eta valid current made (omega (arith, room))) in
        let (eta', valid') =
          record-Calm downstream unmarshal consumer rec w.store w.net w.log eta valid in
        let rest =
          until_committed-Ends k n (m + 1) j (failed (m + 1) (some (message e))) x.1
            (omega (arith, enough)) (omega (arith, room)) decodes named eta' valid' first.1 refl
            (subst (Takes k j) (sym first.2) takes) in
        refused_if x.0 j _ x _ (first.0 ∙ ap not retries) (
          rest.0,
          rest.1 ∙ ap processed (omega arith),
          rest.2 ∙ ap (after_deliveries (suc k) j) first.2,
        )

    -- On a valid database that nobody else uses and whose calls succeed, for an event with an id that
    -- is not processed and of which `m` attempts were made: if `k` deliveries of its job fail in a way
    -- that is to be retried and the next is taken, then a record of the event that Kafka gives again
    -- until its offset is committed, at least `k + 1` times if need be, is committed, the job was
    -- delivered `k + 1` times and no more, and the event is processed at the attempt after these.
    pub until_committed-commits :
        (k n m i : ℕ) (j : Job) (db : Db) (net : N) (log : List Entry)
        → k < n
        → m + k < max_int
        → unmarshal rec.value ≡ ok j
        → j.stripe_event_id ≢ ""
        → IsValid db
        → HasMade m (phase j.stripe_event_id consumer db)
        → Takes k j net
        → let (committed, w) =
            until_committed n (record { store = calm i db; net = net; log = log }) in
          (committed ≡ true)
          × (phase j.stripe_event_id consumer w.store.db ≡ processed (m + k + 1))
          × (w.net ≡ after_deliveries (suc k) j net)
    until_committed-commits k n m i j db net log enough room decodes named valid made takes =
        until_committed-Ends k n m j _ (record { store = calm i db; net = net; log = log }) enough
          room decodes named refl valid refl made takes
