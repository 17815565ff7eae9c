-- ===== src/Tests/Http.antt =====
-- The handlers around the routes, on a response that keeps its status.
use Prim.Native.String.{len}
use go_stripe_webhook_k8s.Store.Interface
use go_stripe_webhook_k8s.Base.{
  ℕ, ◌≤◌, ◌≡◌, ◌≢◌, refl, false, Option, none, some, List, [], ◌∷◌, string_eq, arith,
}
use go_stripe_webhook_k8s.Store.Driver.{Session}
use go_stripe_webhook_k8s.Store.Lifecycle.{calm}
use go_stripe_webhook_k8s.Text.{trim_space, trim_left, trim_right, before, is_space}
use go_stripe_webhook_k8s.Api.Http.{ResponseWriter, recorder, new_recorder}
use go_stripe_webhook_k8s.Api.Middleware.{
  Handler, HttpRequest, Ambient, Server, panicked, max_request_id_length, request_logger,
  resolve_request_id, is_probe_request, recover,
}
use go_stripe_webhook_k8s.Api.Recorder.{IsHttp, final_status}
use go_stripe_webhook_k8s.Api.Told.{Call, sets, begins, writes, perform, is_some, recorder-tells}
use go_stripe_webhook_k8s.Api.Access.{Logged, serve-logs_status}
use go_stripe_webhook_k8s.Api.Guards.{Recovers, recover-Recovers, resolve_request_id-bounds}
use go_stripe_webhook_k8s.Api.Routes.{App, serve}
use go_stripe_webhook_k8s.Tests.Api.{cast, signed, encode, request}
use go_stripe_webhook_k8s.Tests.Data.{empty_db}

-- A response of which only the status is kept.
abbrev first_status : ℕ → Option ℕ → Option ℕ
first_status code none = some code
first_status code (some c) = some c

abbrev pub only_status : ResponseWriter (Option ℕ)
only_status = record {
  set_header = λ k v w. w;
  write_header = first_status;
  write = λ b w. ((len b, none), first_status 200 w);
}

abbrev kept : Option ℕ → Option ℕ
kept w = w

only_status-IsHttp : IsHttp only_status kept
only_status-IsHttp = record {
  header_kept = λ k v w. refl;
  first_header = λ code w final h. rw h refl;
  first_write = λ b w h. rw h refl;
  later_header = λ code c w h. rw h refl;
  later_write = λ b c w h. rw h refl;
}

-- A response as a handler writes it: a field, the status and two writes.
abbrev answer : List Call
answer = sets "Content-Type" "text/plain" ∷ begins 404 ∷ writes "not " ∷ writes "found" ∷ []

recorder-tells_example :
    let (n, rec) = perform (recorder only_status) answer (new_recorder none) in
    (kept rec.response_writer ≡ kept (perform only_status answer none).1)
    × (rec.status ≡ final_status (kept rec.response_writer))
    × (rec.wrote_header ≡ is_some (kept rec.response_writer))
    × (rec.bytes ≡ n)
recorder-tells_example = recorder-tells only_status-IsHttp answer none refl (refl, omega arith, tt)

abbrev app : App Session
app = record {
  cfg = record { port = "8080"; stripe_webhook_secret = "whsec"; database_url = "postgres://db" };
  logger = [];
  store = Interface.postgres cast;
  construct_event = signed;
  marshal = encode;
}

abbrev pub ambient : Ambient
ambient = record { uuid = "9f6a"; duration_ms = 3; stack = "goroutine 1" }

abbrev pub post : HttpRequest
post = record {
  method = "POST";
  path = "/webhooks/stripe";
  remote_addr = "10.0.0.9:4711";
  request_id = " req-7 ";
  context = record { request_id = none; logger = none };
  webhook = request "whsec";
}

abbrev server : Server (Option ℕ) Session
server = record { writer = none; store = calm 0 empty_db; log = [] }

not_probe : is_probe_request post ≡ false
unfolding is_probe_request
not_probe = refl

trimmed_id : resolve_request_id "9f6a" post ≡ "req-7"
unfolding resolve_request_id trim_space trim_left trim_right before is_space
trimmed_id = refl

serve-logs_status_example :
    Logged only_status-IsHttp
      (request_logger [] (resolve_request_id "9f6a" post))
      ambient
      post
      []
      (serve app only_status ambient post server)
serve-logs_status_example =
    serve-logs_status only_status-IsHttp app ambient post server not_probe refl

-- A handler that panics after it sent a status.
abbrev broken : Handler (Option ℕ) Session
broken r s = (panicked "nil map", record s { writer = some 204 })

recover-Recovers_example :
    Recovers only_status-IsHttp [] ambient post
      (broken post server)
      (recover [] ambient only_status broken post server)
recover-Recovers_example = recover-Recovers only_status-IsHttp [] ambient broken post server

resolve_request_id-bounds_example :
    (resolve_request_id "9f6a" post ≢ "")
    × (len (resolve_request_id "9f6a" post) ≤ max_request_id_length)
    × (trim_space post.request_id ≢ ""
        → len (trim_space post.request_id) ≤ max_request_id_length
        → resolve_request_id "9f6a" post ≡ trim_space post.request_id)
resolve_request_id-bounds_example = resolve_request_id-bounds "9f6a" post (λ e. cc) (omega arith)
