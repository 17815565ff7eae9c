-- ===== src/Api/Routes.antt =====
-- The probes of cmd/api/handlers.go, and the routes and their handlers together (cmd/api/app.go and
-- main.go). How `http.ServeMux` matches is written out for paths in canonical form.
use go_stripe_webhook_k8s.Api.LogMsg.{msg_probe_encode_error, msg_readyz_db_check_failed}
use go_stripe_webhook_k8s.Base.{
  ℕ, String, Bool, Option, none, some, [], ◌∷◌, ◌++◌, map, ◌==◌, string_eq, ◌||◌, if◌then◌else◌,
}
use go_stripe_webhook_k8s.Go.{Bytes, Error, message, Result, ok, err}
use go_stripe_webhook_k8s.Log.{text, log_error}
use go_stripe_webhook_k8s.Config.{Config}
use go_stripe_webhook_k8s.Store.Interface.{Store}
use go_stripe_webhook_k8s.Engine.{Job}
use go_stripe_webhook_k8s.Api.{
  Response, header, http_error, Event, event_store, Env, handle_stripe_webhook,
}
use go_stripe_webhook_k8s.Api.Http.{ResponseWriter, recorder, error_response, status_text}
use go_stripe_webhook_k8s.Api.Middleware.{
  Logger, with_logger, logger_from_context, Ambient, Server, Ending, returned, Handler, logged,
  recover, request_log,
}

-- `App`, with what its handlers use of Stripe's library and of encoding/json.
pub record App (S : Type 0) : Type 1 where
  pub cfg : Config
  pub logger : Logger
  pub store : Store S
  pub construct_event : Bytes → String → String → Result Event
  pub marshal : Job → Result Bytes

-- `NewApp`, with the store and the code that is not here.
abbrev pub new_app :
    {S : Type 0}
    → Config
    → Logger
    → Store S
    → (Bytes → String → String → Result Event)
    → (Job → Result Bytes)
    → App S
new_app cfg logger st construct_event marshal = record {
  cfg = cfg;
  logger = logger;
  store = st;
  construct_event = construct_event;
  marshal = marshal;
}

-- The text of `healthResponse{Status: "ok"}`, as `Encode` writes it.
abbrev pub health_text : String
health_text = "{\"status\":\"ok\"}\n"

module _ {W S : Type 0} (app : App S) (wr : ResponseWriter W) where
  abbrev pub encode_error : Logger → String → Option Error → Server W S → Server W S
  encode_error l probe none s = s
  encode_error l probe (some e) s =
      logged
        (with_logger l (
          log_error msg_probe_encode_error
            (("probe", text probe) ∷ ("error", text (message e)) ∷ [])))
        s

  abbrev pub written : Logger → String → Server W S → (ℕ × Option Error) × W → Ending × Server W S
  written l probe s ((n, e), w) = (returned, encode_error l probe e (record s { writer = w }))

  -- `json.NewEncoder(w).Encode(resp)`, and its error.
  abbrev pub write_health : Logger → String → Server W S → Ending × Server W S
  write_health l probe s = written l probe s (wr.write health_text s.writer)

  abbrev pub as_json : Server W S → Server W S
  as_json s = record s {
    writer = wr.set_header "Content-Type" "application/json; charset=utf-8" s.writer;
  }

  -- `handleLivez`
  unfoldable pub handle_livez : Handler W S
  handle_livez r s = write_health (logger_from_context r.context app.logger) "livez" (as_json s)

  abbrev pub pinged : Logger → Result (Unit {0}) × S → Server W S → Ending × Server W S
  pinged l (ok u, st) s = write_health l "readyz" (record s { store = st })
  pinged l (err e, st) s =
      let s' =
        logged
          (with_logger l (log_error msg_readyz_db_check_failed (("error", text (message e)) ∷ [])))
          (record s { store = st }) in
      (returned, record s' { writer = error_response wr (status_text 503) 503 s'.writer })

  -- `handleReadyz`
  unfoldable pub handle_readyz : Handler W S
  handle_readyz r s =
      pinged (logger_from_context r.context app.logger) (app.store.ping s.store) (as_json s)

  abbrev pub respond : Response → W → W
  respond (header code) w = wr.write_header code w
  respond (http_error code) w = error_response wr (status_text code) code w

  abbrev pub responded : Logger → Server W S → Response × Env S → Ending × Server W S
  responded l s (resp, env) = (
    returned,
    record {
      writer = respond resp s.writer;
      store = env.store;
      log = s.log ++ map (with_logger l) env.log;
    },
  )

  -- `handleStripeWebhook`, with the logger of the request.
  unfoldable pub handle_webhook : Handler W S
  handle_webhook r s = responded (logger_from_context r.context app.logger) s (
      handle_stripe_webhook (event_store app.store) app.construct_event app.marshal
        app.cfg.stripe_webhook_secret r.webhook (record { store = s.store; log = [] }))

  abbrev pub only : String → Bool → Handler W S → Handler W S
  only allowed matches handler r s = if matches then handler r s else (
    returned,
    record s {
      writer = error_response wr (status_text 405) 405 (wr.set_header "Allow" allowed s.writer);
    },
  )

  -- `routes`: a pattern of GET also takes HEAD; another method is answered by 405, and another path
  -- by 404.
  unfoldable pub routes : Handler W S
  routes r s =
      let reads = r.method == "GET" || r.method == "HEAD" in
      if r.path == "/livez"
      then only "GET, HEAD" reads handle_livez r s
      else if r.path == "/readyz"
      then only "GET, HEAD" reads handle_readyz r s
      else if r.path == "/webhooks/stripe"
      then only "POST" (r.method == "POST") handle_webhook r s
      else (returned, record s { writer = error_response wr "404 page not found" 404 s.writer })

module _ {W S : Type 0} (app : App S) (wr : ResponseWriter W) (amb : Ambient) where
  -- The handler of the server: `Recover(logger, RequestLog(logger, app.routes()))`.
  unfoldable pub serve : Handler W S
  serve = recover app.logger amb wr (request_log app.logger amb (routes app (recorder wr)))
