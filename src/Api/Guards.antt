-- ===== src/Api/Guards.antt =====
-- `Recover` (cmd/api/recover.go), `resolveRequestID` (cmd/api/logging.go) and the readiness probe.
use Prim.Native.String.{len}
use go_stripe_webhook_k8s.Base.{
  ℕ, ◌≤◌, String, ◌≡◌, ◌≢◌, refl, ◌∙◌, Option, none, some, [], ◌∷◌, ◌++◌, string_eq, ==-iff,
  if◌then◌else◌, arith,
}
use go_stripe_webhook_k8s.Go.{Error, Result, ok, err, is_ok}
use go_stripe_webhook_k8s.Text.{trim_space}
use go_stripe_webhook_k8s.Api.Http.{ResponseWriter, error_response, status_text}
use go_stripe_webhook_k8s.Api.Middleware.{
  Logger, HttpRequest, Ambient, Server, Ending, returned, panicked, Handler, recovered, recover,
  panic_entry, resolve_request_id, max_request_id_length,
}
use go_stripe_webhook_k8s.Api.Recorder.{IsHttp}
use go_stripe_webhook_k8s.Api.Routes.{App, written, as_json, pinged, handle_readyz, health_text}

-- The status that a client gets who is told of a failure: the one that was sent already, if one was.
abbrev pub sent_or : ℕ → Option ℕ → ℕ
sent_or code none = code
sent_or code (some c) = c

module _ {W : Type 0} {wr : ResponseWriter W} {sent : W → Option ℕ} (http : IsHttp wr sent) where
  error_response_at :
      (body : String) (code : ℕ) (w : W) (o : Option ℕ)
      → 200 ≤ code
      → sent w ≡ o
      → sent (error_response wr body code w) ≡ some (sent_or code o)
  unfolding error_response
  error_response_at body code w none final h =
      http.later_write _ code _
        (http.first_header code _ final (http.header_kept _ _ _ ∙ http.header_kept _ _ w ∙ h))
  error_response_at body code w (some c) final h =
      http.later_write _ c _
        (http.later_header code c _ (http.header_kept _ _ _ ∙ http.header_kept _ _ w ∙ h))

module _ {W S : Type 0} {wr : ResponseWriter W} {sent : W → Option ℕ} (http : IsHttp wr sent) where
  -- What `Recover` makes of the end of a handler.
  abbrev pub Recovers :
      Logger → Ambient → HttpRequest → Ending × Server W S → Ending × Server W S → Type 0
  Recovers logger amb r (returned, s) (e, t) = (e ≡ returned) × (t ≡ s)
  Recovers logger amb r (panicked what, s) (e, t) =
      (e ≡ returned)
      × (t.store ≡ s.store)
      × (t.log ≡ s.log ++ panic_entry logger amb what r ∷ [])
      × (sent t.writer ≡ some (sent_or 500 (sent s.writer)))

  recovered_lem :
      (logger : Logger) (amb : Ambient) (r : HttpRequest) (x : Ending × Server W S)
      → Recovers logger amb r x (recovered logger amb wr r x)
  recovered_lem logger amb r (returned, s) = (refl, refl)
  recovered_lem logger amb r (panicked what, s) =
      (refl, refl, refl, error_response_at http (status_text 500) 500 s.writer _ (omega arith) refl)

  -- Around any handler, `Recover` returns. It leaves the end of a handler that returned; after a
  -- panic it adds the entry to the log and leaves the store, and the client gets 500, or the status
  -- that the handler had sent before.
  pub recover-Recovers :
      (logger : Logger) (amb : Ambient) (next : Handler W S) (r : HttpRequest) (s : Server W S)
      → Recovers logger amb r (next r s) (recover logger amb wr next r s)
  unfolding recover
  recover-Recovers logger amb next r s = recovered_lem logger amb r (next r s)

  sent-written :
      (app : App S) (l : Logger) (probe : String) (s : Server W S) (x : (ℕ × Option Error) × W)
      (c : ℕ)
      → sent x.1 ≡ some c
      → sent (written app wr l probe s x).1.writer ≡ some c
  sent-written app l probe s ((n, none), w) c h = h
  sent-written app l probe s ((n, some e), w) c h = h

  sent-pinged :
      (app : App S) (l : Logger) (x : Result (Unit {0}) × S) (s : Server W S)
      → sent s.writer ≡ none
      → sent (pinged app wr l x s).1.writer ≡ some (if is_ok x.0 then 200 else 503)
  sent-pinged app l (ok u, st) s h =
      sent-written app l "readyz" (record s { store = st }) (wr.write health_text s.writer) 200
        (http.first_write health_text s.writer h)
  sent-pinged app l (err e, st) s h =
      error_response_at http (status_text 503) 503 s.writer none (omega arith) h

  -- The readiness probe answers 200 if the database answers a ping, and else 503.
  pub handle_readyz-sent :
      (app : App S) (r : HttpRequest) (s : Server W S)
      → sent s.writer ≡ none
      → sent (handle_readyz app wr r s).1.writer
        ≡ some (if is_ok (app.store.ping s.store).0 then 200 else 503)
  unfolding handle_readyz
  handle_readyz-sent app r s h =
      sent-pinged app _ (app.store.ping s.store) (as_json app wr s)
        (http.header_kept _ _ s.writer ∙ h)

-- The id of a request is never empty and has at most 128 bytes, if a new UUID is so; and it is the
-- trimmed header X-Request-ID wherever that is not empty and no longer.
pub resolve_request_id-bounds :
    (uuid : String) (r : HttpRequest)
    → uuid ≢ ""
    → len uuid ≤ max_request_id_length
    → let id = resolve_request_id uuid r in
      (id ≢ "")
      × (len id ≤ max_request_id_length)
      × (trim_space r.request_id ≢ ""
          → len (trim_space r.request_id) ≤ max_request_id_length
          → id ≡ trim_space r.request_id)
unfolding resolve_request_id
resolve_request_id-bounds uuid r named short = ground (arith, ==-iff (trim_space r.request_id) "")
