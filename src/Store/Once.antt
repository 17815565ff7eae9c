-- ===== src/Store/Once.antt =====
-- `MarkConsumerProcessed` and `MarkConsumerFailed` of internal/store/postgres.go after a completion was
-- marked as processed.
use go_stripe_webhook_k8s.Base.{
  String, ◌≡◌, ◌≢◌, refl, sym, ◌∙◌, true, Option, none, some, string_eq, pair_eq, ==-iff, arith,
}
use go_stripe_webhook_k8s.Go.{ok}
use go_stripe_webhook_k8s.Sql.{IsKeyed}
use go_stripe_webhook_k8s.Store.Schema.{
  CompletionRecord, completion_key, completion_processing, completion_processed, completion_failed,
}
use go_stripe_webhook_k8s.Store.Statements.{
  completion_row, processed_row, failed_row, update_processed, update_failed,
}
use go_stripe_webhook_k8s.Store.Driver.{Session, arrive}
use go_stripe_webhook_k8s.Store.Postgres.{mark_consumer_processed, mark_consumer_failed}
use go_stripe_webhook_k8s.Store.Distinct.{processing-ne-processed}
use go_stripe_webhook_k8s.Store.Evolves.{Evolves, CompletionLe}
use go_stripe_webhook_k8s.Store.Marked.{HasStatus, mark_consumer_processed-true}
use go_stripe_webhook_k8s.Store.Rows.{
  driver, set_completion_self, processed_row-key, failed_row-key, rows_set-found,
}
use go_stripe_webhook_k8s.Store.Sound.{Sound, arrive-Sound}

module _ (id consumer : String) where
  -- On a processed completion no mark answers true, and none changes it.
  module _ (t : Session) (r : CompletionRecord)
      (found : completion_row id consumer (arrive t).db ≡ some r)
      (final : r.status ≡ completion_processed)
      (keyed : IsKeyed completion_key (arrive t).db.completions) where
    processed-refused :
        ((mark_consumer_processed id consumer t).0 ≢ ok true)
        × (completion_row id consumer (mark_consumer_processed id consumer t).1.db ≡ some r)
    unfolding driver mark_consumer_processed update_processed
    processed-refused = ground (
      arith,
      ==-iff r.status completion_processing,
      processing-ne-processed,
      rows_set-found id consumer (arrive t).db r found completion_processing keyed,
      set_completion_self id consumer completion_processing
          (processed_row completion_processed (arrive t).db.now) (arrive t).db r found
          (processed_row-key completion_processed (arrive t).db.now),
    )

    failed-refused :
        (msg : String)
        → ((mark_consumer_failed id consumer msg t).0 ≢ ok true)
          × (completion_row id consumer (mark_consumer_failed id consumer msg t).1.db ≡ some r)
    unfolding driver mark_consumer_failed update_failed
    failed-refused msg = ground (
      arith,
      ==-iff r.status completion_processing,
      processing-ne-processed,
      rows_set-found id consumer (arrive t).db r found completion_processing keyed,
      set_completion_self id consumer completion_processing
          (failed_row completion_failed msg (arrive t).db.now) (arrive t).db r found
          (failed_row-key completion_failed msg (arrive t).db.now),
    )

  final_row :
      (a b : Option CompletionRecord)
      → HasStatus completion_processed a
      → CompletionLe a b
      → (r : CompletionRecord) × (a ≡ some r) × (b ≡ some r) × (r.status ≡ completion_processed)
  final_row (some r) (some q) h le = (r, refl, ground (arith, le.0 h), h)
  final_row (some r) none h le = absurd le
  final_row none b h le = absurd h

  -- Once a mark answered true that it made a completion processed, no later mark of it answers true,
  -- neither as processed nor as failed, and each leaves the completion as that mark made it: if the
  -- first call finds a valid database, the later one finds unique keys, and what happens between the
  -- two undoes nothing, whatever the other clients do during the calls and however these end.
  pub mark_consumer_processed-once :
      (s t : Session) (msg : String)
      → Sound s
      → (mark_consumer_processed id consumer s).0 ≡ ok true
      → IsKeyed completion_key (arrive t).db.completions
      → Evolves (mark_consumer_processed id consumer s).1.db (arrive t).db
      → let row = completion_row id consumer (mark_consumer_processed id consumer s).1.db in
        let (r, v) = mark_consumer_processed id consumer t in
        let (r', v') = mark_consumer_failed id consumer msg t in
        (r ≢ ok true)
        × (r' ≢ ok true)
        × (completion_row id consumer v.db ≡ row)
        × (completion_row id consumer v'.db ≡ row)
  mark_consumer_processed-once s t msg sound marks keyed between =
      let (r, made, found, final) =
        final_row _ _
          (mark_consumer_processed-true id consumer s (arrive-Sound s sound).valid.completions_keyed
            marks)
          (between.completions_kept id consumer) in
      let (refused, same) = processed-refused t r found final keyed in
      let (refused', same') = failed-refused t r found final keyed msg in
      (refused, refused', same ∙ sym made, same' ∙ sym made)
