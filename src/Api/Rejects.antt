-- ===== src/Api/Rejects.antt =====
-- Requests without a valid signature, or whose body cannot be read (cmd/api/handlers.go).
use go_stripe_webhook_k8s.Base.{String, ◌≡◌, refl, false}
use go_stripe_webhook_k8s.Go.{Bytes, Error, Result, ok, err, is_ok}
use go_stripe_webhook_k8s.Engine.{Job}
use go_stripe_webhook_k8s.Api.{
  Body, read, too_large, unreadable, Request, Event, Response, http_error, EventStore, Env,
  verified, body_read, handle_stripe_webhook, max_stripe_webhook_body,
}

-- Why a request is refused, by the response.
pub data Refusal (b : Body) : Response → Type 0 where
  over_limit : b ≡ too_large → Refusal b (http_error 413)
  broken : (e : Error) → b ≡ unreadable e → Refusal b (http_error 400)
  forged : (body : Bytes) → b ≡ read body → Refusal b (http_error 400)

module _ {S : Type 0} (st : EventStore S) (construct_event : Bytes → String → String → Result Event)
    (marshal : Job → Result Bytes) (secret : String) where
  verified_rejects :
      (r : Result Event) (w : Env S)
      → is_ok r ≡ false
      → ((verified st construct_event marshal secret r w).1.store ≡ w.store)
        × ((verified st construct_event marshal secret r w).0 ≡ http_error 400)
  verified_rejects (ok ev) w h = cc
  verified_rejects (err e) w h = (refl, refl)

  body_rejects :
      (signature : String) (b : Body) (w : Env S)
      → ((body : Bytes) → b ≡ read body → is_ok (construct_event body signature secret) ≡ false)
      → ((body_read st construct_event marshal secret signature b w).1.store ≡ w.store)
        × Refusal b (body_read st construct_event marshal secret signature b w).0
  body_rejects signature too_large w h = (refl, over_limit refl)
  body_rejects signature (unreadable e) w h = (refl, broken e refl)
  body_rejects signature (read body) w h =
      let (same, bad) = verified_rejects (construct_event body signature secret) w (h body refl) in
      (same, rw bad (forged body refl))

  -- A request whose body is not read within the limit, or has no valid signature, does not touch the
  -- store, whatever store that is; it is answered by 413 only for a body over the limit, and else by
  -- 400.
  pub handle_stripe_webhook-rejects :
      (r : Request) (w : Env S)
      → ((body : Bytes)
          → r.body max_stripe_webhook_body ≡ read body
          → is_ok (construct_event body r.signature secret) ≡ false)
      → ((handle_stripe_webhook st construct_event marshal secret r w).1.store ≡ w.store)
        × Refusal
            (r.body max_stripe_webhook_body)
            (handle_stripe_webhook st construct_event marshal secret r w).0
  unfolding handle_stripe_webhook
  handle_stripe_webhook-rejects r w h =
      body_rejects r.signature (r.body max_stripe_webhook_body) w h
