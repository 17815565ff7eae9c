-- ===== src/Api/Changes.antt =====
-- What a webhook (cmd/api/handlers.go) does to the tables: the transaction of `AcceptEvent`, the gap that
-- an aborted one leaves, or nothing.
use go_stripe_webhook_k8s.Base.{
  String, ◌≡◌, refl, sym, subst, none, inl, inr, Bool, true, false, Option,
}
use go_stripe_webhook_k8s.Go.{Bytes, Result, ok, err}
use go_stripe_webhook_k8s.Engine.{Job}
use go_stripe_webhook_k8s.Store.Schema.{Db, EventStatus}
use go_stripe_webhook_k8s.Store.Driver.{Session}
use go_stripe_webhook_k8s.Store.Postgres
use go_stripe_webhook_k8s.Store.Rely.{ping_db-Keeps, Rely, Left, Left-then, Left-refl}
use go_stripe_webhook_k8s.Store.Guarantee.{status-Keeps}
use go_stripe_webhook_k8s.Store.Valid.{IsValid}
use go_stripe_webhook_k8s.Store.Reach.{
  Reach, here, later, Reach-trans, Reach-Respects, accept, skip_id,
}
use go_stripe_webhook_k8s.Store.Invariant.{Reach-Sound}
use go_stripe_webhook_k8s.Store.Sound.{arrive-Sound}
use go_stripe_webhook_k8s.Store.Accept.{
  AcceptOutcome, accept_event-outcome, accept_event-closed, accept_event-same_script,
}
use go_stripe_webhook_k8s.Api.{
  [], Body, read, too_large, unreadable, Request, Event, Env, job_of, on_store, after_status,
  after_accept, marshalled, verified, body_read, handle_stripe_webhook, max_stripe_webhook_body,
}
use go_stripe_webhook_k8s.Api.Accepts.{postgres}
use go_stripe_webhook_k8s.Api.Http.{ResponseWriter}
use go_stripe_webhook_k8s.Api.Middleware.{Logger, Ambient, Server, HttpRequest}
use go_stripe_webhook_k8s.Api.Routes.{new_app, serve}
use go_stripe_webhook_k8s.Api.Serves.{serve-keeps}
use go_stripe_webhook_k8s.Config.{Config}
use go_stripe_webhook_k8s.Store.Interface

module _ (jsonb : Bytes → Option Bytes) where
  outcome-Reach :
      (id event_type : String) (payload : Bytes) (r : Result Bool) (a b : Db)
      → AcceptOutcome jsonb id event_type payload r a b
      → Reach a b
  outcome-Reach id event_type payload (ok true) a b (stored, stores, absent, same) =
      later here (accept id event_type stored absent same)
  outcome-Reach id event_type payload (ok false) a b (present, same) =
      subst (Reach a) (sym same) here
  outcome-Reach id event_type payload (err e) a b (inl same) = subst (Reach a) (sym same) here
  outcome-Reach id event_type payload (err e) a b (inr (inl same)) = later here (skip_id same)
  outcome-Reach id event_type payload (err e) a b (inr (inr (stored, stores, absent, same))) =
      later here (accept id event_type stored absent same)

  -- `AcceptEvent` among such processes, on valid tables.
  accept_event-Left :
      (id event_type : String) (payload : Bytes) (s : Session)
      → s.tx ≡ none
      → IsValid s.db
      → Rely Reach s.script
      → Left Reach s (Postgres.accept_event jsonb id event_type payload s).1
  accept_event-Left id event_type payload s closed valid rely = record {
    related = Reach-trans (rely s.used s.db) (
        outcome-Reach id event_type payload _ _ _ (
          accept_event-outcome jsonb id event_type payload s closed
            ((arrive-Sound s (Reach-Sound s closed valid rely)).valid.referenced id)));
    closed = accept_event-closed jsonb id event_type payload s closed;
    same_script = accept_event-same_script jsonb id event_type payload s;
  }

  module _ (construct_event : Bytes → String → String → Result Event) (marshal : Job → Result Bytes)
      (secret : String) (s : Session) (rely : Rely Reach s.script) where
    status-Left :
        (ev : Event) (x : Result EventStatus × Env Session)
        → Left Reach s x.1.store
        → Left Reach s (after_status (postgres jsonb) construct_event marshal secret ev x).1.store
    status-Left ev (ok es, w) left = left
    status-Left ev (err e, w) left = left

    accept-Left :
        (ev : Event) (x : Result Bool × Env Session)
        → Left Reach s x.1.store
        → Left Reach s (after_accept (postgres jsonb) construct_event marshal secret ev x).1.store
    accept-Left ev (err e, w) left = left
    accept-Left ev (ok true, w) left = left
    accept-Left ev (ok false, w) left =
        status-Left ev (on_store (Postgres.status ev.id) w) (
          Left-then Reach-Respects.preorder _ (status-Keeps Reach-Respects.preorder ev.id) rely
            left)

    module _ (closed : s.tx ≡ none) (valid : IsValid s.db) where
      same-Left : Left Reach s s
      same-Left = Left-refl Reach-Respects.preorder s s closed refl refl refl

      marshalled-Left :
          (ev : Event) (r : Result Bytes) (w : Env Session)
          → w.store ≡ s
          → Left Reach s (marshalled (postgres jsonb) construct_event marshal secret ev r w).1.store
      marshalled-Left ev (err e) w start = subst (Left Reach s) (sym start) same-Left
      marshalled-Left ev (ok payload) w start =
          accept-Left ev (on_store (Postgres.accept_event jsonb ev.id ev.event_type payload) w) (
            subst (λ t. Left Reach s (Postgres.accept_event jsonb ev.id ev.event_type payload t).1)
              (sym start) (accept_event-Left ev.id ev.event_type payload s closed valid rely))

      verified-Left :
          (r : Result Event) (w : Env Session)
          → w.store ≡ s
          → Left Reach s (verified (postgres jsonb) construct_event marshal secret r w).1.store
      verified-Left (err e) w start = subst (Left Reach s) (sym start) same-Left
      verified-Left (ok ev) w start = marshalled-Left ev (marshal (job_of ev)) w start

      body-Left :
          (signature : String) (b : Body) (w : Env Session)
          → w.store ≡ s
          → Left Reach s
              (body_read (postgres jsonb) construct_event marshal secret signature b w).1.store
      body-Left signature too_large w start = subst (Left Reach s) (sym start) same-Left
      body-Left signature (unreadable e) w start = subst (Left Reach s) (sym start) same-Left
      body-Left signature (read body) w start =
          verified-Left (construct_event body signature secret) w start

  pub handle_stripe_webhook-Left :
      (construct_event : Bytes → String → String → Result Event) (marshal : Job → Result Bytes)
      (secret : String) (r : Request) (w : Env Session)
      → w.store.tx ≡ none
      → IsValid w.store.db
      → Rely Reach w.store.script
      → Left Reach w.store
          (handle_stripe_webhook (postgres jsonb) construct_event marshal secret r w).1.store
  unfolding handle_stripe_webhook
  handle_stripe_webhook-Left construct_event marshal secret r w closed valid rely =
      body-Left construct_event marshal secret w.store rely closed valid r.signature
        (r.body max_stripe_webhook_body) w refl

  -- A request to the API, to the webhook or to any other path.
  pub serve-Left :
      {W : Type 0} (cfg : Config) (logger : Logger)
      (construct_event : Bytes → String → String → Result Event) (marshal : Job → Result Bytes)
      (wr : ResponseWriter W) (amb : Ambient) (r : HttpRequest) (v : Server W Session)
      → v.store.tx ≡ none
      → IsValid v.store.db
      → Rely Reach v.store.script
      → Left Reach v.store
          (serve
            (new_app cfg logger (Interface.postgres jsonb) construct_event marshal)
            wr
            amb
            r
            v).1.store
  unfolding Postgres.ping
  serve-Left cfg logger construct_event marshal wr amb r v closed valid rely =
      serve-keeps (Left Reach v.store)
        (new_app cfg logger (Interface.postgres jsonb) construct_event marshal) v.store
        (Left-refl Reach-Respects.preorder v.store v.store closed refl refl refl)
        ((ping_db-Keeps Reach-Respects.preorder).at v.store closed rely)
        (λ q.
          handle_stripe_webhook-Left construct_event marshal cfg.stripe_webhook_secret q
            (record { store = v.store; log = [] }) closed valid rely)
        wr amb r v refl
