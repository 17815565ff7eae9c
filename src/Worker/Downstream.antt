-- ===== src/Worker/Downstream.antt =====
-- cmd/worker/downstream.go: delivery of a job over HTTP. encoding/json and net/http are parameters.
pub mod Laws
use go_stripe_webhook_k8s.Base.{ℕ, String, Bool, ◌&&◌, leb, ltb, if◌then◌else◌}
use go_stripe_webhook_k8s.Go.{Bytes, Error, job, Result, ok, err}
use go_stripe_webhook_k8s.Monad.{M}
use go_stripe_webhook_k8s.Engine.{Job}
use go_stripe_webhook_k8s.Worker.JobErrors.{
  classify_http_status, permanent_job_error, retryable_job_error,
}

-- `DownstreamClient`, over the state `N` of the network.
pub record DownstreamClient (N : Type 0) : Type 0 where
  pub deliver_job : Job → M N (Unit {0})

-- What the client uses of encoding/json and net/http: the text of a job, a POST request with a
-- body for an address, and the status code that a request is answered with.
pub record HttpClient (N : Type 0) : Type 1 where
  pub Request : Type 0
  pub marshal : Job → Result Bytes
  pub new_request : String → Bytes → Result Request
  pub send : Request → M N ℕ

module _ {N : Type 0} (http : HttpClient N) where
  open http use {Request, marshal, new_request, send}

  -- The answer to a request that was sent.
  abbrev pub answered : Result ℕ × N → Result (Unit {0}) × N
  answered (err e, n) = (err (job (retryable_job_error "downstream request" e 0)), n)
  answered (ok status, n) =
      (if leb 200 status && ltb status 300 then ok tt else err (classify_http_status status), n)

  abbrev pub sent : Result Request → M N (Unit {0})
  sent (err e) n = (err (job (permanent_job_error "build request" e)), n)
  sent (ok req) n = answered (send req n)

  abbrev pub posted : String → Result Bytes → M N (Unit {0})
  posted base_url (err e) n = (err (job (permanent_job_error "marshal job" e)), n)
  posted base_url (ok body) n = sent (new_request base_url body) n

  -- `(*httpDownstream).DeliverJob`
  unfoldable pub deliver_job : String → Job → M N (Unit {0})
  deliver_job base_url j = posted base_url (marshal j)

  -- `NewHTTPDownstream`, with a client given.
  unfoldable pub new_http_downstream : String → DownstreamClient N
  unfolding deliver_job
  new_http_downstream base_url = record { deliver_job = deliver_job base_url }
