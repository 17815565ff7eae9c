-- ===== src/Worker/Attempt.antt =====
-- One record at the worker as a step of the completion's state machine: claim, delivery and mark
-- together (`handleRecord` of cmd/worker/main.go), on a database that nobody else uses.
use go_stripe_webhook_k8s.Base.{
  List, ◌+◌, ℕ, ◌<◌, String, ◌≡◌, ◌≢◌, refl, sym, subst, Bool, true, false, not, some, ◌==◌,
  string_eq, pair_eq, ==-iff, if◌then◌else◌, arith,
}
use go_stripe_webhook_k8s.Go.{Bytes, Error, message, Result, ok, err}
use go_stripe_webhook_k8s.Engine.{Job}
use go_stripe_webhook_k8s.Sql.{IsKeyed}
use go_stripe_webhook_k8s.Log.{Entry}
use go_stripe_webhook_k8s.Store.Schema.{Db, CompletionClaim, completion_key, max_int}
use go_stripe_webhook_k8s.Store.Driver.{Session}
use go_stripe_webhook_k8s.Store.Postgres.{
  claim_consumer_completion, mark_consumer_processed, mark_consumer_failed,
}
use go_stripe_webhook_k8s.Store.Rely.{Left}
use go_stripe_webhook_k8s.Store.Guarantee.{claim_consumer_completion-Keeps}
use go_stripe_webhook_k8s.Store.Valid.{IsValid, KeepsValid, KeepsValid-Respects}
use go_stripe_webhook_k8s.Store.Lifecycle.{
  Phase, absent, processing, processed, failed, unknown, phase, claimed_phase, claim_of, attempts,
  calm, claim_consumer_completion-refines,
}
use go_stripe_webhook_k8s.Store.Fresh.{calm-eta}
use go_stripe_webhook_k8s.Store.Lifecycle.Marks.{
  Marks, mark_consumer_processed-refines, mark_consumer_failed-refines, processed_phase,
  failed_phase,
}
use go_stripe_webhook_k8s.Worker.JobErrors.{is_retryable_job_error}
use go_stripe_webhook_k8s.Worker.Downstream.{DownstreamClient}
use go_stripe_webhook_k8s.Worker.Record.{
  Env, KafkaRecord, delivered, after_processed, after_failed, after_job, after_claim, handle_job,
  handle_record,
}
use go_stripe_webhook_k8s.Worker.Postgres.{postgres}

-- How attempt `m` ends, by the answer to the delivery: whether the record may be committed, and the
-- phase.
abbrev pub attempt : ℕ → Result (Unit {0}) → Bool × Phase
attempt m (ok u) = (true, processed m)
attempt m (err e) = (not (is_retryable_job_error e), failed m (some (message e)))

-- What a record of an event in a phase does, where a delivery would be answered by `d` and leave
-- the network `n'`: a processed event is not delivered, any other is, as one more attempt.
abbrev pub work : {N : Type 0} → Phase → N → Result (Unit {0}) × N → Bool × Phase × N
work (processed m) n d = (true, processed m, n)
work absent n (d, n') = ((attempt 1 d).0, (attempt 1 d).1, n')
work (processing m) n (d, n') = ((attempt (m + 1) d).0, (attempt (m + 1) d).1, n')
work (failed m e) n (d, n') = ((attempt (m + 1) d).0, (attempt (m + 1) d).1, n')
work unknown n d = (false, unknown, n)

module _ {N : Type 0} (downstream : DownstreamClient N) (unmarshal : Bytes → Result Job)
    (consumer : String) (rec : KafkaRecord) where
  -- The record may be committed or not, the phase of the event and the network are these.
  abbrev pub Ends : Job → Bool × Phase × N → Bool × Env Session N → Type 0
  Ends j end y =
      (y.0 ≡ end.0) × (phase j.stripe_event_id consumer y.1.store.db ≡ end.1) × (y.1.net ≡ end.2)

  processed-Ends :
      (j : Job) (w : Env Session N) (x : Result Bool × Session) (p : Phase)
      → x.0 ≡ ok true
      → phase j.stripe_event_id consumer x.1.db ≡ p
      → Ends j
          (true, p, w.net)
          (after_processed postgres downstream unmarshal consumer rec j
            (x.0, record w { store = x.1 }))
  processed-Ends j w (ok true, s) p h e = (refl, e, refl)
  processed-Ends j w (ok false, s) p h e = cc
  processed-Ends j w (err x, s) p h e = cc

  failed-Ends :
      (j : Job) (e : Error) (w : Env Session N) (x : Result Bool × Session) (p : Phase)
      → x.0 ≡ ok true
      → phase j.stripe_event_id consumer x.1.db ≡ p
      → Ends j
          (not (is_retryable_job_error e), p, w.net)
          (after_failed postgres downstream unmarshal consumer rec j e
            (x.0, record w { store = x.1 }))
  failed-Ends j e w (ok b, s) p h q = (refl, q, refl)
  failed-Ends j e w (err x, s) p h q = cc

  -- The marks that end an attempt, on a calm database.
  marked_processed :
      (j : Job) (k : ℕ) (s : Session) (m : ℕ)
      → calm k s.db ≡ s
      → IsKeyed completion_key s.db.completions
      → phase j.stripe_event_id consumer s.db ≡ processing m
      → Marks
          (mark_consumer_processed j.stripe_event_id consumer s)
          j.stripe_event_id
          consumer
          (processed m, true)
  marked_processed j k s m same keyed current =
      subst
        (λ t.
          Marks (mark_consumer_processed j.stripe_event_id consumer t) j.stripe_event_id consumer
            (processed m, true))
        same
        (subst
          (λ p.
            Marks (mark_consumer_processed j.stripe_event_id consumer (calm k s.db))
              j.stripe_event_id consumer (processed_phase p))
          current (mark_consumer_processed-refines k j.stripe_event_id consumer s.db keyed))

  marked_failed :
      (j : Job) (msg : String) (k : ℕ) (s : Session) (m : ℕ)
      → calm k s.db ≡ s
      → IsKeyed completion_key s.db.completions
      → phase j.stripe_event_id consumer s.db ≡ processing m
      → Marks
          (mark_consumer_failed j.stripe_event_id consumer msg s)
          j.stripe_event_id
          consumer
          (failed m (some msg), true)
  marked_failed j msg k s m same keyed current =
      subst
        (λ t.
          Marks (mark_consumer_failed j.stripe_event_id consumer msg t) j.stripe_event_id consumer
            (failed m (some msg), true))
        same
        (subst
          (λ p.
            Marks (mark_consumer_failed j.stripe_event_id consumer msg (calm k s.db))
              j.stripe_event_id consumer (failed_phase msg p))
          current (mark_consumer_failed-refines k j.stripe_event_id consumer s.db keyed msg))

  -- The delivery and the mark after it.
  job-Ends :
      (j : Job) (k : ℕ) (m : ℕ) (d : Result (Unit {0}) × N) (w : Env Session N)
      → calm k w.store.db ≡ w.store
      → IsKeyed completion_key w.store.db.completions
      → phase j.stripe_event_id consumer w.store.db ≡ processing m
      → Ends j
          ((attempt m d.0).0, (attempt m d.0).1, d.1)
          (after_job postgres downstream unmarshal consumer rec j
            (delivered j (d.0, record w { net = d.1 })))
  job-Ends j k m (ok u, n) w same keyed current =
      let marks = marked_processed j k w.store m same keyed current in
      processed-Ends j (delivered j (ok u, record w { net = n })).1
        (mark_consumer_processed j.stripe_event_id consumer w.store) (processed m) marks.0 marks.1
  job-Ends j k m (err e, n) w same keyed current =
      let marks = marked_failed j (message e) k w.store m same keyed current in
      failed-Ends j e (delivered j (err e, record w { net = n })).1
        (mark_consumer_failed j.stripe_event_id consumer (message e) w.store)
        (failed m (some (message e))) marks.0 marks.1

  -- After the claim of an event in phase `p`.
  claim-Ends :
      (j : Job) (k : ℕ) (p : Phase) (w : Env Session N) (s : Session)
      → p ≢ unknown
      → phase j.stripe_event_id consumer s.db ≡ claimed_phase p
      → calm k s.db ≡ s
      → IsKeyed completion_key s.db.completions
      → Ends j (work p w.net (downstream.deliver_job j w.net)) (
          after_claim postgres downstream unmarshal consumer rec j
            (ok (claim_of p), record w { store = s }))
  unfolding handle_job
  claim-Ends j k (processed m) w s known found same keyed = (refl, found, refl)
  claim-Ends j k absent w s known found same keyed =
      job-Ends j k 1 (downstream.deliver_job j w.net) (record w { store = s }) same keyed found
  claim-Ends j k (processing m) w s known found same keyed =
      job-Ends j k (m + 1) (downstream.deliver_job j w.net) (record w { store = s }) same keyed
        found
  claim-Ends j k (failed m e) w s known found same keyed =
      job-Ends j k (m + 1) (downstream.deliver_job j w.net) (record w { store = s }) same keyed
        found
  claim-Ends j k unknown w s known found same keyed = absurd (known refl)

  -- After the answer `r` of a claim.
  claimed-Ends :
      (j : Job) (k : ℕ) (p : Phase) (w : Env Session N) (x : Result CompletionClaim × Session)
      → p ≢ unknown
      → (x.0 ≡ ok (claim_of p)) × (phase j.stripe_event_id consumer x.1.db ≡ claimed_phase p)
      → calm k x.1.db ≡ x.1
      → IsKeyed completion_key x.1.db.completions
      → Ends j
          (work p w.net (downstream.deliver_job j w.net))
          (after_claim postgres downstream unmarshal consumer rec j (x.0, record w { store = x.1 }))
  claimed-Ends j k p w x known claims same keyed =
      subst
        (λ r.
          Ends j (work p w.net (downstream.deliver_job j w.net)) (
            after_claim postgres downstream unmarshal consumer rec j (r, record w { store = x.1 })))
        (sym claims.0) (claim-Ends j k p w x.1 known claims.1 same keyed)

  -- A job with an id is claimed.
  named-Ends :
      (j : Job) (b : Bool) (g : Bool × Phase × N) (refusal y : Bool × Env Session N)
      → b ≡ false
      → Ends j g y
      → Ends j g (if b then refusal else y)
  named-Ends j false g refusal y named h = h
  named-Ends j true g refusal y named h = cc

  -- On a valid database that nobody else uses and whose calls succeed, a record of an event with an
  -- id and a completion of a known status, with attempts left, ends as the state machine says: a
  -- processed event is not delivered again and its record may be committed; any other is delivered
  -- as one more attempt, which ends as processed, with the record committed, or as failed with the
  -- error's message, with the record committed unless the error is to be retried.
  pub handle_record-refines :
      (j : Job) (k : ℕ) (db : Db) (net : N) (log : List Entry)
      → unmarshal rec.value ≡ ok j
      → j.stripe_event_id ≢ ""
      → IsValid db
      → phase j.stripe_event_id consumer db ≢ unknown
      → attempts (phase j.stripe_event_id consumer db) < max_int
      → Ends j (work (phase j.stripe_event_id consumer db) net (downstream.deliver_job j net)) (
          handle_record postgres downstream unmarshal consumer rec
            (record { store = calm k db; net = net; log = log }))
  unfolding handle_record
  handle_record-refines j k db net log read named valid known room =
      let id = j.stripe_event_id in
      let x = claim_consumer_completion id consumer j.event_type (calm k db) in
      let left : Left KeepsValid (calm k db) x.1 =
        (claim_consumer_completion-Keeps KeepsValid-Respects id consumer j.event_type).at
          (calm k db) refl (λ n d h. h) in
      rw read (
        named-Ends j (id == "") _ _ _ (ground (arith, ==-iff id "")) (
          claimed-Ends j x.1.used (phase id consumer db)
            (record { store = calm k db; net = net; log = log }) x known
            (claim_consumer_completion-refines k id consumer j.event_type db known room)
            (calm-eta k db x.1 left.closed left.same_script)
            (left.related valid).completions_keyed))
