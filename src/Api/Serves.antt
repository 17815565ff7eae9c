-- ===== src/Api/Serves.antt =====
-- What a request leaves of the store, by the handler that `routes` chooses (cmd/api/app.go, handlers.go,
-- recover.go and requestlog.go): the middleware does not touch it.
use go_stripe_webhook_k8s.Base.{
  ℕ, String, ◌≡◌, refl, sym, subst, ◌∙◌, Bool, true, false, Option, none, some, ◌==◌, string_eq,
  if◌then◌else◌,
}
use go_stripe_webhook_k8s.Go.{Error, Result, ok, err}
use go_stripe_webhook_k8s.Log.{Entry}
use go_stripe_webhook_k8s.Api.{[], Request, event_store, handle_stripe_webhook}
use go_stripe_webhook_k8s.Api.Http.{ResponseWriter, ResponseRecorder, recorder}
use go_stripe_webhook_k8s.Api.Middleware.{
  logged, resolve_request_id, request_logger, identified, started_entry, Logger, Ambient, Server,
  Ending, returned, panicked, Handler, HttpRequest, access_log, recovered, recover, completed,
  request_log, is_probe_request, record_response,
}
use go_stripe_webhook_k8s.Api.Routes.{
  App, health_text, written, pinged, as_json, handle_livez, handle_readyz, handle_webhook, only,
  routes, serve,
}

access_log-store :
    {W S : Type 0} (r : HttpRequest) (e : Entry) (s : Server W S)
    → (access_log r e s).store ≡ s.store
access_log-store r e s = at (is_probe_request r)
  where
    at : (b : Bool) → (if b then s else logged e s).store ≡ s.store
    at true = refl
    at false = refl

module _ {S : Type 0} (P : S → Type 0) where
  if-keeps :
      {W : Type 0} (b : Bool) (x y : Ending × Server W S)
      → P x.1.store
      → P y.1.store
      → P (if b then x else y).1.store
  if-keeps true x y p q = p
  if-keeps false x y p q = q

  module _ {W : Type 0} (logger : Logger) (amb : Ambient) where
    recovered-keeps :
        (wr : ResponseWriter W) (r : HttpRequest) (x : Ending × Server W S)
        → P x.1.store
        → P (recovered logger amb wr r x).1.store
    recovered-keeps wr r (returned, s) p = p
    recovered-keeps wr r (panicked what, s) p = p

    completed-keeps :
        (l : Logger) (r : HttpRequest) (x : Ending × Server (ResponseRecorder W) S)
        → P x.1.store
        → P (completed logger amb l r x).1.store
    completed-keeps l r (returned, s) p = subst P (sym (access_log-store r _ _)) p
    completed-keeps l r (panicked what, s) p = p

  -- The handlers, from the state `s` of the store.
  module _ (app : App S) (s : S) (same : P s) (pings : P (app.store.ping s).1)
      (hooks : (r : Request)
        → P
            (handle_stripe_webhook
              (event_store app.store)
              app.construct_event
              app.marshal
              app.cfg.stripe_webhook_secret
              r
              (record { store = s; log = [] })).1.store) where
    written-keeps :
        {W : Type 0} (wr : ResponseWriter W) (l : Logger) (probe : String) (v : Server W S)
        (x : (ℕ × Option Error) × W)
        → P v.store
        → P (written app wr l probe v x).1.store
    written-keeps wr l probe v ((n, none), w) p = p
    written-keeps wr l probe v ((n, some e), w) p = p

    livez-keeps :
        {W : Type 0} (wr : ResponseWriter W) (r : HttpRequest) (v : Server W S)
        → v.store ≡ s
        → P (handle_livez app wr r v).1.store
    unfolding handle_livez
    livez-keeps wr r v here =
        written-keeps wr _ "livez" (as_json app wr v)
          (wr.write health_text (as_json app wr v).writer) (subst P (sym here) same)

    pinged-keeps :
        {W : Type 0} (wr : ResponseWriter W) (l : Logger) (x : Result (Unit {0}) × S)
        (v : Server W S)
        → P x.1
        → P (pinged app wr l x v).1.store
    pinged-keeps wr l (ok u, t) v p =
        written-keeps wr l "readyz" (record v { store = t }) (wr.write health_text v.writer) p
    pinged-keeps wr l (err e, t) v p = p

    readyz-keeps :
        {W : Type 0} (wr : ResponseWriter W) (r : HttpRequest) (v : Server W S)
        → v.store ≡ s
        → P (handle_readyz app wr r v).1.store
    unfolding handle_readyz
    readyz-keeps wr r v here =
        pinged-keeps wr _ (app.store.ping v.store) (as_json app wr v)
          (subst (λ t. P (app.store.ping t).1) (sym here) pings)

    webhook-keeps :
        {W : Type 0} (wr : ResponseWriter W) (r : HttpRequest) (v : Server W S)
        → v.store ≡ s
        → P (handle_webhook app wr r v).1.store
    unfolding handle_webhook
    webhook-keeps wr r v here =
        subst
          (λ t.
            P
              (handle_stripe_webhook (event_store app.store) app.construct_event app.marshal
                app.cfg.stripe_webhook_secret r.webhook (record { store = t; log = [] })).1.store)
          (sym here) (hooks r.webhook)

    only-keeps :
        {W : Type 0} (wr : ResponseWriter W) (allowed : String) (b : Bool) (h : Handler W S)
        (r : HttpRequest) (v : Server W S)
        → v.store ≡ s
        → P (h r v).1.store
        → P (only app wr allowed b h r v).1.store
    only-keeps wr allowed b h r v here p = if-keeps b _ _ p (subst P (sym here) same)

    routes-keeps :
        {W : Type 0} (wr : ResponseWriter W) (r : HttpRequest) (v : Server W S)
        → v.store ≡ s
        → P (routes app wr r v).1.store
    unfolding routes
    routes-keeps wr r v here =
        if-keeps (r.path == "/livez") _ _
          (only-keeps wr _ _ (handle_livez app wr) r v here (livez-keeps wr r v here))
          (if-keeps (r.path == "/readyz") _ _
            (only-keeps wr _ _ (handle_readyz app wr) r v here (readyz-keeps wr r v here))
            (if-keeps (r.path == "/webhooks/stripe") _ _
              (only-keeps wr _ _ (handle_webhook app wr) r v here (webhook-keeps wr r v here))
              (subst P (sym here) same)))

    -- A request leaves the store as its handler does, whatever the middleware adds.
    pub serve-keeps :
        {W : Type 0} (wr : ResponseWriter W) (amb : Ambient) (r : HttpRequest) (v : Server W S)
        → v.store ≡ s
        → P (serve app wr amb r v).1.store
    unfolding serve recover request_log
    serve-keeps wr amb r v here =
        let id = resolve_request_id amb.uuid r in
        let l = request_logger app.logger id in
        let r' = identified app.logger id r in
        let v' = access_log r' (started_entry l r') v in
        let x = routes app (recorder wr) r' (record_response v') in
        recovered-keeps app.logger amb wr r (completed app.logger amb l r' x) (
          completed-keeps app.logger amb l r' x (
            routes-keeps (recorder wr) r' (record_response v')
              (access_log-store r' (started_entry l r') v ∙ here)))
