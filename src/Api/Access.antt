-- ===== src/Api/Access.antt =====
-- The access log (`RequestLog` of cmd/api/requestlog.go) around the routes.
use mathlib.Core.List.{append_assoc, append-nil}
use go_stripe_webhook_k8s.Base.{
  ℕ, String, ◌≡◌, ◌≢◌, refl, sym, Bool, false, Option, none, some, List, [], ◌∷◌, ◌++◌, map, ◌==◌,
  string_eq, arith,
}
use go_stripe_webhook_k8s.Go.{Error, Result, ok, err}
use go_stripe_webhook_k8s.Log.{Entry}
use go_stripe_webhook_k8s.Api.{event_store, Response, header, http_error, Env}
use go_stripe_webhook_k8s.Api.Http.{ResponseWriter, ResponseRecorder, recorder}
use go_stripe_webhook_k8s.Api.Middleware.{
  Logger, with_logger, HttpRequest, Ambient, Server, Ending, returned, panicked, Handler, logged,
  recover, request_log, request_logger, resolve_request_id, is_probe_request, started_entry,
  completed_entry, access_log, record_response, completed, recovered, identified,
}
use go_stripe_webhook_k8s.Api.Final.{IsFinal, handle_stripe_webhook-IsFinal}
use go_stripe_webhook_k8s.Api.Recorder.{
  if_both, IsHttp, IsFresh, IsTold, new_recorder-IsFresh, set_header-IsFresh, write_header-IsTold,
  first_write-IsTold, error_response-IsTold,
}
use go_stripe_webhook_k8s.Api.Routes.{
  App, written, as_json, handle_livez, pinged, handle_readyz, respond, responded, handle_webhook,
  only, routes, serve, health_text,
}

panicked≢returned : (what : String) → panicked what ≢ returned
panicked≢returned what h = cc

module _ {W S : Type 0} {wr : ResponseWriter W} {sent : W → Option ℕ} (http : IsHttp wr sent) where
  -- The handler returned, the recorder knows the status, and the log has only grown.
  pub record IsAnswered (before : List Entry) (x : Ending × Server (ResponseRecorder W) S)
      : Type 0 where
    pub ended : x.0 ≡ returned
    pub told : IsTold http x.1.writer
    pub entries : List Entry
    pub appended : x.1.log ≡ before ++ entries

  written-IsAnswered :
      (app : App S) (l : Logger) (probe : String) (s : Server (ResponseRecorder W) S)
      (x : (ℕ × Option Error) × ResponseRecorder W)
      → IsTold http x.1
      → IsAnswered s.log (written app (recorder wr) l probe s x)
  written-IsAnswered app l probe s ((n, none), w) h = record {
    ended = refl;
    told = h;
    entries = [];
    appended = sym (append-nil s.log);
  }
  written-IsAnswered app l probe s ((n, some e), w) h = record {
    ended = refl;
    told = h;
    entries = _;
    appended = refl;
  }

  module _ (app : App S) (r : HttpRequest) (s : Server (ResponseRecorder W) S)
      (fresh : IsFresh http s.writer) where
    livez-IsAnswered : IsAnswered s.log (handle_livez app (recorder wr) r s)
    unfolding handle_livez
    livez-IsAnswered =
        written-IsAnswered app _ "livez" (as_json app (recorder wr) s)
          ((recorder wr).write health_text (as_json app (recorder wr) s).writer)
          (first_write-IsTold http health_text _ (set_header-IsFresh http _ _ s.writer fresh))

    pinged-IsAnswered :
        (l : Logger) (p : Result (Unit {0}) × S)
        → IsAnswered s.log (pinged app (recorder wr) l p (as_json app (recorder wr) s))
    pinged-IsAnswered l (ok u, st) =
        written-IsAnswered app _ "readyz" (record (as_json app (recorder wr) s) { store = st })
          ((recorder wr).write health_text (as_json app (recorder wr) s).writer)
          (first_write-IsTold http health_text _ (set_header-IsFresh http _ _ s.writer fresh))
    pinged-IsAnswered l (err e, st) = record {
      ended = refl;
      told =
          error_response-IsTold http _ 503 _ (omega arith)
            (set_header-IsFresh http _ _ s.writer fresh);
      entries = _;
      appended = refl;
    }

    readyz-IsAnswered : IsAnswered s.log (handle_readyz app (recorder wr) r s)
    unfolding handle_readyz
    readyz-IsAnswered = pinged-IsAnswered _ (app.store.ping s.store)

    respond-IsTold :
        (resp : Response) → IsFinal resp → IsTold http (respond app (recorder wr) resp s.writer)
    respond-IsTold (header code) final = write_header-IsTold http code s.writer final fresh
    respond-IsTold (http_error code) final = error_response-IsTold http _ code s.writer final fresh

    responded-IsAnswered :
        (l : Logger) (x : Response × Env S)
        → IsFinal x.0
        → IsAnswered s.log (responded app (recorder wr) l s x)
    responded-IsAnswered l (resp, env) final = record {
      ended = refl;
      told = respond-IsTold resp final;
      entries = map (with_logger l) env.log;
      appended = refl;
    }

    webhook-IsAnswered : IsAnswered s.log (handle_webhook app (recorder wr) r s)
    unfolding handle_webhook
    webhook-IsAnswered = responded-IsAnswered _ _ (
        handle_stripe_webhook-IsFinal (event_store app.store) app.construct_event app.marshal
          app.cfg.stripe_webhook_secret r.webhook (record { store = s.store; log = [] }))

    refused-IsAnswered :
        (allowed : String) (matches : Bool) (handler : Handler (ResponseRecorder W) S)
        → IsAnswered s.log (handler r s)
        → IsAnswered s.log (only app (recorder wr) allowed matches handler r s)
    refused-IsAnswered allowed matches handler h =
        if_both (IsAnswered s.log) matches _ _ h (record {
          ended = refl;
          told =
              error_response-IsTold http _ 405 _ (omega arith)
                (set_header-IsFresh http _ _ s.writer fresh);
          entries = [];
          appended = sym (append-nil s.log);
        })

    routes-IsAnswered : IsAnswered s.log (routes app (recorder wr) r s)
    unfolding routes
    routes-IsAnswered =
        if_both (IsAnswered s.log) (r.path == "/livez") _ _
          (refused-IsAnswered _ _ (handle_livez app (recorder wr)) livez-IsAnswered)
          (if_both (IsAnswered s.log) (r.path == "/readyz") _ _
            (refused-IsAnswered _ _ (handle_readyz app (recorder wr)) readyz-IsAnswered)
            (if_both (IsAnswered s.log) (r.path == "/webhooks/stripe") _ _
              (refused-IsAnswered _ _ (handle_webhook app (recorder wr)) webhook-IsAnswered)
              (record {
                ended = refl;
                told = error_response-IsTold http _ 404 s.writer (omega arith) fresh;
                entries = [];
                appended = sym (append-nil s.log);
              })))

  -- What a request that is not a probe leaves, by the log before it.
  abbrev pub Logged : Logger → Ambient → HttpRequest → List Entry → Ending × Server W S → Type 0
  Logged l amb r before x =
      (x.0 ≡ returned)
      × (code : ℕ) × (sent x.1.writer ≡ some code)
      × (entries : List Entry) × (x.1.log
          ≡ before ++ started_entry l r ∷ (entries ++ completed_entry l amb r code ∷ []))

  completed-Logged :
      (app : App S) (amb : Ambient) (l : Logger) (r : HttpRequest) (before : List Entry)
      (x : Ending × Server (ResponseRecorder W) S)
      → is_probe_request r ≡ false
      → IsAnswered (before ++ started_entry l r ∷ []) x
      → Logged l amb r before (recovered app.logger amb wr r (completed app.logger amb l r x))
  completed-Logged app amb l r before (returned, s) other h =
      rw other (refl, s.writer.status, h.told.told, h.entries, simp (h.appended, append_assoc))
  completed-Logged app amb l r before (panicked what, s) other h =
      absurd (panicked≢returned what h.ended)

  started-Logged :
      (app : App S) (amb : Ambient) (l : Logger) (r : HttpRequest) (s s' : Server W S)
      → is_probe_request r ≡ false
      → sent s.writer ≡ none
      → s' ≡ logged (started_entry l r) s
      → Logged l amb r s.log (
          recovered app.logger amb wr r
            (completed app.logger amb l r (routes app (recorder wr) r (record_response s'))))
  started-Logged app amb l r s s' other unsent same =
      completed-Logged app amb l r s.log (routes app (recorder wr) r (record_response s')) other (
        rw same (
          routes-IsAnswered app r (record_response (logged (started_entry l r) s))
            (new_recorder-IsFresh http s.writer unsent)))

  -- A request that is not a probe, on a response that has not begun, is answered, and its access log
  -- is a line before all others and one after them, with the status that the client got.
  pub serve-logs_status :
      (app : App S) (amb : Ambient) (r : HttpRequest) (s : Server W S)
      → is_probe_request r ≡ false
      → sent s.writer ≡ none
      → Logged
          (request_logger app.logger (resolve_request_id amb.uuid r))
          amb
          r
          s.log
          (serve app wr amb r s)
  unfolding serve recover request_log is_probe_request
  serve-logs_status app amb r s other unsent =
      let l = request_logger app.logger (resolve_request_id amb.uuid r) in
      let r' = identified app.logger (resolve_request_id amb.uuid r) r in
      started-Logged app amb l r' s (access_log r' (started_entry l r') s) other unsent
        (rw other refl)
