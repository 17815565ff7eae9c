-- ===== src/Api/Middleware.antt =====
-- cmd/api/logging.go, requestlog.go and recover.go: the request id, the logger of a request, and
-- the two handlers that stand around all others. The clock, the ids of google/uuid and the stack
-- dump are parameters.
use Prim.Native.String.{len}
use go_stripe_webhook_k8s.Api.LogMsg.{msg_panic, msg_request_completed, msg_request_started}
use go_stripe_webhook_k8s.Base.{
  ℕ, String, Bool, not, Option, none, some, List, [], ◌∷◌, ◌++◌, ◌==◌, string_eq, ◌&&◌, ◌||◌, leb,
  if◌then◌else◌,
}
use go_stripe_webhook_k8s.Log.{Value, text, num, Entry, log_info, log_error}
use go_stripe_webhook_k8s.Text.{trim_space}
use go_stripe_webhook_k8s.Api.{Request}
use go_stripe_webhook_k8s.Api.Http.{
  ResponseWriter, ResponseRecorder, new_recorder, error_response, status_text,
}

-- A logger: the attributes that it puts in front of those of an entry.
abbrev pub Logger : Type 0
Logger = List (String × Value)

abbrev pub with_logger : Logger → Entry → Entry
with_logger logger e = record e { attrs = logger ++ e.attrs }

-- The values of the two keys that the program puts on a request's context.
pub record Context : Type 0 where
  pub request_id : Option String
  pub logger : Option Logger

-- `withRequestContext`
unfoldable pub with_request_context : Context → String → Logger → Context
with_request_context ctx id logger = record ctx { request_id = some id; logger = some logger }

abbrev pub or_empty : Option String → String
or_empty none = ""
or_empty (some id) = id

-- `requestIDFromContext`
unfoldable pub request_id_from_context : Context → String
request_id_from_context ctx = or_empty ctx.request_id

abbrev pub or_fallback : Option Logger → Logger → Logger
or_fallback none fallback = fallback
or_fallback (some logger) fallback = logger

-- `loggerFromContext`
unfoldable pub logger_from_context : Context → Logger → Logger
logger_from_context ctx fallback = or_fallback ctx.logger fallback

-- What the program reads of `http.Request`. `request_id` is the header X-Request-ID.
pub record HttpRequest : Type 0 where
  pub method : String
  pub path : String
  pub remote_addr : String
  pub request_id : String
  pub context : Context
  pub webhook : Request

-- What a request takes from outside: a new UUID, the milliseconds that it took, a dump of the stack.
pub record Ambient : Type 0 where
  pub uuid : String
  pub duration_ms : ℕ
  pub stack : String

abbrev pub max_request_id_length : ℕ
max_request_id_length = 128

-- `resolveRequestID`
unfoldable pub resolve_request_id : String → HttpRequest → String
resolve_request_id uuid r =
    let id = trim_space r.request_id in
    if not (id == "") && leb (len id) max_request_id_length then id else uuid

-- `isProbeRequest`
unfoldable pub is_probe_request : HttpRequest → Bool
is_probe_request r = r.method == "GET" && (r.path == "/livez" || r.path == "/readyz")

-- What a handler acts on: the response, the store and the log.
pub record Server (W S : Type 0) : Type 0 where
  pub writer : W
  pub store : S
  pub log : List Entry

-- A handler returns or panics with a value, here its text.
pub data Ending : Type 0 where
  returned : Ending
  panicked : String → Ending

abbrev pub Handler : Type 0 → Type 0 → Type 0
Handler W S = HttpRequest → Server W S → Ending × Server W S

abbrev pub logged : {W S : Type 0} → Entry → Server W S → Server W S
logged e s = record s { log = s.log ++ e ∷ [] }

module _ (logger : Logger) (amb : Ambient) where
  abbrev pub panic_entry : String → HttpRequest → Entry
  panic_entry what r = with_logger logger (
      log_error msg_panic (
        ("error", text what)
        ∷ ("stack", text amb.stack)
        ∷ ("path", text r.path)
        ∷ ("method", text r.method)
        ∷ []))

  module _ {W S : Type 0} (wr : ResponseWriter W) where
    abbrev pub recovered : HttpRequest → Ending × Server W S → Ending × Server W S
    recovered r (returned, s) = (returned, s)
    recovered r (panicked what, s) =
        let s' = logged (panic_entry what r) s in
        (returned, record s' { writer = error_response wr (status_text 500) 500 s'.writer })

    -- `Recover`
    unfoldable pub recover : Handler W S → Handler W S
    recover next r s = recovered r (next r s)

abbrev pub request_logger : Logger → String → Logger
request_logger logger id = logger ++ ("request_id", text id) ∷ []

abbrev pub started_entry : Logger → HttpRequest → Entry
started_entry l r = with_logger l (
    log_info msg_request_started (
      ("method", text r.method) ∷ ("path", text r.path) ∷ ("remote_addr", text r.remote_addr) ∷ []))

abbrev pub completed_entry : Logger → Ambient → HttpRequest → ℕ → Entry
completed_entry l amb r status = with_logger l (
    log_info msg_request_completed (
      ("method", text r.method)
      ∷ ("path", text r.path)
      ∷ ("status", num status)
      ∷ ("duration_ms", num amb.duration_ms)
      ∷ []))

-- `r.WithContext(withRequestContext(…))`
abbrev pub identified : Logger → String → HttpRequest → HttpRequest
identified logger id r = record r {
  context = with_request_context r.context id (request_logger logger id);
}

module _ {W S : Type 0} where
  -- `if !isProbeRequest(r) { reqLogger.Info(…) }`
  abbrev pub access_log : HttpRequest → Entry → Server W S → Server W S
  access_log r e s = if is_probe_request r then s else logged e s

  abbrev pub record_response : Server W S → Server (ResponseRecorder W) S
  record_response s = record { writer = new_recorder s.writer; store = s.store; log = s.log }

  abbrev pub release : Server (ResponseRecorder W) S → Server W S
  release s = record { writer = s.writer.response_writer; store = s.store; log = s.log }

module _ {W S : Type 0} (logger : Logger) (amb : Ambient) where
  -- After the handler; a panic passes by the last lines.
  abbrev pub completed :
      Logger → HttpRequest → Ending × Server (ResponseRecorder W) S → Ending × Server W S
  completed l r (returned, s) =
      (returned, access_log r (completed_entry l amb r s.writer.status) (release s))
  completed l r (panicked what, s) = (panicked what, release s)

  -- `RequestLog`
  unfoldable pub request_log : Handler (ResponseRecorder W) S → Handler W S
  request_log next r s =
      let id = resolve_request_id amb.uuid r in
      let l = request_logger logger id in
      let r' = identified logger id r in
      completed l r' (next r' (record_response (access_log r' (started_entry l r') s)))
