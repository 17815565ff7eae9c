-- ===== src/Worker/Duplicates.antt =====
-- A message that is delivered again after its event was processed.
use go_stripe_webhook_k8s.Base.{
  ap, String, ◌≡◌, refl, sym, subst, Bool, true, false, Option, none, some, ◌==◌, string_eq,
  if◌then◌else◌,
}
use go_stripe_webhook_k8s.Go.{Bytes, Result, ok, err}
use go_stripe_webhook_k8s.Engine.{Job}
use go_stripe_webhook_k8s.Store.Schema.{
  CompletionClaim, CompletionRecord, completion_processed, claim_already_processed, Db,
}
use go_stripe_webhook_k8s.Store.Statements.{completion_row}
use go_stripe_webhook_k8s.Store.Driver.{Session, arrive, count_call}
use go_stripe_webhook_k8s.Store.Postgres.{claim_consumer_completion}
use go_stripe_webhook_k8s.Store.Guarantee.{claim_consumer_completion-Keeps}
use go_stripe_webhook_k8s.Store.Evolves.{Evolves, Evolves-Respects, CompletionLe}
use go_stripe_webhook_k8s.Store.Marked.{claim-of_processed}
use go_stripe_webhook_k8s.Store.Sound.{Sound}
use go_stripe_webhook_k8s.Worker.Downstream.{DownstreamClient}
use go_stripe_webhook_k8s.Worker.Record.{Env, KafkaRecord, on_store, after_claim, handle_record}
use go_stripe_webhook_k8s.Worker.Postgres.{postgres}

-- A processed row is the same in all later tables.
final_row :
    (id consumer : String) (a b : Db) (r : CompletionRecord)
    → Evolves a b
    → completion_row id consumer a ≡ some r
    → r.status ≡ completion_processed
    → completion_row id consumer b ≡ some r
final_row id consumer a b r evolves found final = at (completion_row id consumer b) (
    subst (λ o. CompletionLe o (completion_row id consumer b)) found
      (evolves.completions_kept id consumer))
  where
    at : (o : Option CompletionRecord) → CompletionLe (some r) o → o ≡ some r
    at none le = absurd le
    at (some q) le = ap some (le.0 final)

module _ {N : Type 0} (downstream : DownstreamClient N) (unmarshal : Bytes → Result Job)
    (consumer : String) (rec : KafkaRecord) where
  skipped_net :
      (j : Job) (x : Result CompletionClaim × Env Session N)
      → ((c : CompletionClaim) → x.0 ≡ ok c → c.action ≡ claim_already_processed)
      → let y = after_claim postgres downstream unmarshal consumer rec j x in
        (y.1.net ≡ x.1.net) × (y.1.store ≡ x.1.store)
  skipped_net j (err e, w) already = (refl, refl)
  skipped_net j (ok c, w) already = rw (already c refl) (refl, refl)

  module _ (j : Job) (w : Env Session N) (sound : Sound w.store) (r : CompletionRecord)
      (found : completion_row j.stripe_event_id consumer w.store.db ≡ some r)
      (final : r.status ≡ completion_processed) where
    claim_skips :
        (c : CompletionClaim)
        → (claim_consumer_completion j.stripe_event_id consumer j.event_type w.store).0 ≡ ok c
        → c.action ≡ claim_already_processed
    claim_skips c =
        let s = w.store in
        let first : completion_row j.stripe_event_id consumer (arrive s).db ≡ some r =
          final_row j.stripe_event_id consumer s.db (arrive s).db r (sound.rely_evolves s.used s.db)
            found final in
        claim-of_processed j.stripe_event_id consumer s j.event_type c r r first
          (final_row j.stripe_event_id consumer (arrive s).db (arrive (count_call (arrive s))).db r
            (sound.rely_evolves (count_call (arrive s)).used (arrive s).db) first final)
          final

    claim_keeps :
        completion_row j.stripe_event_id consumer
          (claim_consumer_completion j.stripe_event_id consumer j.event_type w.store).1.db
        ≡ some r
    claim_keeps =
        final_row j.stripe_event_id consumer w.store.db _ r
          ((claim_consumer_completion-Keeps Evolves-Respects j.stripe_event_id consumer
              j.event_type).at
            w.store sound.closed sound.rely_evolves).related
          found final

    decoded_skips :
        (b : Bool) (refusal : Bool × Env Session N)
        → refusal.1.net ≡ w.net
        → refusal.1.store ≡ w.store
        → let y =
            if b
            then refusal
            else after_claim postgres downstream unmarshal consumer rec j
                (on_store (claim_consumer_completion j.stripe_event_id consumer j.event_type) w) in
          (y.1.net ≡ w.net) × (completion_row j.stripe_event_id consumer y.1.store.db ≡ some r)
    decoded_skips true refusal net same =
        (net, subst (λ s. completion_row j.stripe_event_id consumer s.db ≡ some r) (sym same) found)
    decoded_skips false refusal net same =
        let (quiet, kept) =
          skipped_net j
            (on_store (claim_consumer_completion j.stripe_event_id consumer j.event_type) w)
            claim_skips in
        (
          quiet,
          subst (λ s. completion_row j.stripe_event_id consumer s.db ≡ some r) (sym kept)
              claim_keeps,
        )

    -- A record of an event that this consumer has processed is never delivered downstream again, and
    -- the completion stays as it is: on any valid database, if the other clients keep it valid and
    -- undo nothing, and however each call ends.
    pub handle_record-no_redelivery :
        unmarshal rec.value ≡ ok j
        → let y = handle_record postgres downstream unmarshal consumer rec w in
          (y.1.net ≡ w.net) × (completion_row j.stripe_event_id consumer y.1.store.db ≡ some r)
    unfolding handle_record
    handle_record-no_redelivery e = rw e (decoded_skips (j.stripe_event_id == "") _ refl refl)
