-- ===== src/Engine.antt =====
-- internal/engine: the job that the parts hand on, and its making from a Stripe event. JSON is
-- encoding/json's: its functions are parameters.
use go_stripe_webhook_k8s.Base.{ℤ, String, Bool}
use go_stripe_webhook_k8s.Go.{Bytes, wrapped, Result, ok, err}

pub record Job : Type 0 where
  pub stripe_event_id : String
  pub event_type : String
  pub payload : Bytes

pub record StripeEventData : Type 0 where
  pub object : Bytes

-- `created` is an int64 that the program only carries.
pub record StripeEvent : Type 0 where
  pub id : String
  pub event_type : String
  pub event_data : StripeEventData
  pub created : ℤ
  pub livemode : Bool

-- `JobFromStripeEvent`
unfoldable pub job_from_stripe_event : StripeEvent → Job
job_from_stripe_event evt = record {
  stripe_event_id = evt.id;
  event_type = evt.event_type;
  payload = evt.event_data.object;
}

abbrev pub parsed : Result StripeEvent → Result StripeEvent
parsed (ok ev) = ok ev
parsed (err e) = err (wrapped "parse stripe event" e)

-- `ParseStripeEvent`
unfoldable pub parse_stripe_event : (Bytes → Result StripeEvent) → Bytes → Result StripeEvent
parse_stripe_event unmarshal body = parsed (unmarshal body)
