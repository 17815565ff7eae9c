-- ===== src/Api/Final.antt =====
-- The status of each response of the webhook (cmd/api/handlers.go) is one that ends the exchange.
use go_stripe_webhook_k8s.Base.{◌≤◌, String, Bool, true, false, string_eq, arith}
use go_stripe_webhook_k8s.Go.{Bytes, Result, ok, err}
use go_stripe_webhook_k8s.Engine.{Job}
use go_stripe_webhook_k8s.Store.Schema.{EventStatus}
use go_stripe_webhook_k8s.Api.{
  Body, read, too_large, unreadable, Request, Response, header, http_error, Event, EventStore, Env,
  job_of, on_store, after_status, after_accept, marshalled, verified, body_read,
  handle_stripe_webhook, max_stripe_webhook_body,
}

-- A response with a status that ends the exchange.
abbrev pub IsFinal : Response → Type 0
IsFinal (header code) = 200 ≤ code
IsFinal (http_error code) = 200 ≤ code

module _ {S : Type 0} (st : EventStore S) (construct_event : Bytes → String → String → Result Event)
    (marshal : Job → Result Bytes) (secret : String) where
  after_status-IsFinal :
      (ev : Event) (x : Result EventStatus × Env S)
      → IsFinal (after_status st construct_event marshal secret ev x).0
  after_status-IsFinal ev (ok es, w) = omega arith
  after_status-IsFinal ev (err e, w) = omega arith

  after_accept-IsFinal :
      (ev : Event) (x : Result Bool × Env S)
      → IsFinal (after_accept st construct_event marshal secret ev x).0
  after_accept-IsFinal ev (ok true, w) = omega arith
  after_accept-IsFinal ev (ok false, w) = after_status-IsFinal ev (on_store (st.status ev.id) w)
  after_accept-IsFinal ev (err e, w) = omega arith

  verified-IsFinal :
      (r : Result Event) (w : Env S) → IsFinal (verified st construct_event marshal secret r w).0
  verified-IsFinal (err e) w = omega arith
  verified-IsFinal (ok ev) w = at (marshal (job_of ev))
    where
      at : (p : Result Bytes) → IsFinal (marshalled st construct_event marshal secret ev p w).0
      at (err e) = omega arith
      at (ok payload) =
          after_accept-IsFinal ev (on_store (st.accept_event ev.id ev.event_type payload) w)

  body_read-IsFinal :
      (signature : String) (b : Body) (w : Env S)
      → IsFinal (body_read st construct_event marshal secret signature b w).0
  body_read-IsFinal signature too_large w = omega arith
  body_read-IsFinal signature (unreadable e) w = omega arith
  body_read-IsFinal signature (read body) w =
      verified-IsFinal (construct_event body signature secret) w

  pub handle_stripe_webhook-IsFinal :
      (r : Request) (w : Env S)
      → IsFinal (handle_stripe_webhook st construct_event marshal secret r w).0
  unfolding handle_stripe_webhook
  handle_stripe_webhook-IsFinal r w =
      body_read-IsFinal r.signature (r.body max_stripe_webhook_body) w
