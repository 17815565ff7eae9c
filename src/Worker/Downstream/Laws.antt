-- ===== src/Worker/Downstream/Laws.antt =====
-- The endings of a delivery (cmd/worker/downstream.go, job_error.go).
use go_stripe_webhook_k8s.Base.{
  ℕ, ◌≤◌, ◌<◌, String, ◌≡◌, refl, ◌⊎◌, ◌↔◌, inl, inr, true, false, leb, ltb, Bool-cases, ◌&&◌,
  arith,
}
use go_stripe_webhook_k8s.Go.{Bytes, Error, wrapped, Result, ok, err}
use go_stripe_webhook_k8s.Engine.{Job}
use go_stripe_webhook_k8s.Worker.JobErrors.{
  is_retryable_job_error, classify_http_status, permanent_job_error, retryable_job_error,
}
use go_stripe_webhook_k8s.Worker.Downstream.{HttpClient, deliver_job, answered, sent, posted}

-- Of all status codes, `classifyHTTPStatus` makes an error that is retried exactly of those of 500 and
-- above and of 429.
pub classify_http_status-retryable_iff :
    (status : ℕ)
    → (is_retryable_job_error (classify_http_status status) ≡ true)
      ↔ ((500 ≤ status) ⊎ (status ≡ 429))
unfolding is_retryable_job_error classify_http_status
classify_http_status-retryable_iff status = ground arith

-- Wrapping an error does not change whether it is retried.
pub is_retryable_job_error-wrapped :
    (m : String) (e : Error) → is_retryable_job_error (wrapped m e) ≡ is_retryable_job_error e
unfolding is_retryable_job_error
is_retryable_job_error-wrapped m e = refl

module _ {N : Type 0} (http : HttpClient N) where
  -- How a delivery can end, stated by what the libraries answered.
  pub data Ending (base_url : String) (j : Job) (n : N) : Result (Unit {0}) × N → Type 0 where
    -- The job has no JSON text; nothing is sent, and a retry would not help.
    no_text :
        {e f : Error} {x : Result (Unit {0}) × N}
        → http.marshal j ≡ err e
        → x ≡ (err f, n)
        → is_retryable_job_error f ≡ false
        → Ending base_url j n x
    -- The address makes no request; nothing is sent, and a retry would not help.
    no_request :
        {body : Bytes} {e f : Error} {x : Result (Unit {0}) × N}
        → http.marshal j ≡ ok body
        → http.new_request base_url body ≡ err e
        → x ≡ (err f, n)
        → is_retryable_job_error f ≡ false
        → Ending base_url j n x
    -- The request failed on its way: retry.
    no_answer :
        {body : Bytes} {req : http.Request} {e f : Error} {x : Result (Unit {0}) × N}
        → http.marshal j ≡ ok body
        → http.new_request base_url body ≡ ok req
        → (http.send req n).0 ≡ err e
        → x ≡ (err f, (http.send req n).1)
        → is_retryable_job_error f ≡ true
        → Ending base_url j n x
    -- The answer is a success.
    accepted :
        {body : Bytes} {req : http.Request} {status : ℕ} {x : Result (Unit {0}) × N}
        → http.marshal j ≡ ok body
        → http.new_request base_url body ≡ ok req
        → (http.send req n).0 ≡ ok status
        → 200 ≤ status
        → status < 300
        → x ≡ (ok tt, (http.send req n).1)
        → Ending base_url j n x
    -- The answer is no success: retry a server error and "too many requests".
    rejected :
        {body : Bytes} {req : http.Request} {status : ℕ} {f : Error} {x : Result (Unit {0}) × N}
        → http.marshal j ≡ ok body
        → http.new_request base_url body ≡ ok req
        → (http.send req n).0 ≡ ok status
        → (status < 200) ⊎ (300 ≤ status)
        → x ≡ (err f, (http.send req n).1)
        → (is_retryable_job_error f ≡ true) ↔ ((500 ≤ status) ⊎ (status ≡ 429))
        → Ending base_url j n x

  module _ (base_url : String) (j : Job) (n : N) where
    answered_ending :
        (body : Bytes) (req : http.Request)
        → http.marshal j ≡ ok body
        → http.new_request base_url body ≡ ok req
        → (r : Result ℕ) → (http.send req n).0 ≡ r
        → Ending base_url j n (answered http (r, (http.send req n).1))
    unfolding retryable_job_error is_retryable_job_error
    answered_ending body req m q (err e) s = no_answer m q s refl refl
    answered_ending body req m q (ok status) s =
        elim (Bool-cases (leb 200 status && ltb status 300)) [
          | inl success ↦ accepted m q s (ground arith) (ground arith) (rw success)
          | inr other ↦
              rejected {f = classify_http_status status} m q s (ground arith) (rw other)
                (classify_http_status-retryable_iff status)
        ]

    sent_ending :
        (body : Bytes)
        → http.marshal j ≡ ok body
        → (r : Result http.Request) → http.new_request base_url body ≡ r
        → Ending base_url j n (sent http r n)
    unfolding permanent_job_error is_retryable_job_error
    sent_ending body m (err e) q = no_request m q refl refl
    sent_ending body m (ok req) q = answered_ending body req m q _ refl

    posted_ending :
        (r : Result Bytes) → http.marshal j ≡ r → Ending base_url j n (posted http base_url r n)
    unfolding permanent_job_error is_retryable_job_error
    posted_ending (err e) m = no_text m refl refl
    posted_ending (ok body) m = sent_ending body m _ refl

    -- Every delivery ends in one of these ways: it succeeds exactly on an answer of 200 to 299; a
    -- job that cannot be sent is not retried; a request that fails on its way is; and of the other
    -- answers exactly those of 500 and above and 429 are.
    pub deliver_job-ending : Ending base_url j n (deliver_job http base_url j n)
    unfolding deliver_job
    deliver_job-ending = posted_ending _ refl
