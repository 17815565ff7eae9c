-- ===== src/Store/Distinct.antt =====
-- The status texts are told apart.
use go_stripe_webhook_k8s.Base.{◌≢◌, ==-iff, string_eq, arith}
use go_stripe_webhook_k8s.Store.Schema.{
  completion_processing, completion_processed, completion_failed, outbox_pending, outbox_published,
}

pub processing-ne-processed : completion_processing ≢ completion_processed
processing-ne-processed = ground (arith, ==-iff completion_processing completion_processed)

pub processing-ne-failed : completion_processing ≢ completion_failed
processing-ne-failed = ground (arith, ==-iff completion_processing completion_failed)

pub failed-ne-processed : completion_failed ≢ completion_processed
failed-ne-processed = ground (arith, ==-iff completion_failed completion_processed)

pub pending-ne-published : outbox_pending ≢ outbox_published
pending-ne-published = ground (arith, ==-iff outbox_pending outbox_published)
