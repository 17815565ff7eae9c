-- ===== src/Worker/JobErrors.antt =====
-- cmd/worker/job_error.go: errors of a job, and which of them are worth a retry.
use go_stripe_webhook_k8s.Base.{
  ℕ, String, Bool, true, false, Option, none, some, leb, nat_eq, ◌||◌, if◌then◌else◌,
}
use go_stripe_webhook_k8s.Go.{Error, job, JobError, job_error, nil, cause, as_job_error}

abbrev pub retryable : JobError → Bool
retryable (job_error msg retry status c) = retry

abbrev pub http_status : JobError → ℕ
http_status (job_error msg retry status c) = status

-- `(*JobError).IsRetryable`
unfoldable pub is_retryable : JobError → Bool
is_retryable je = retryable je

abbrev pub retryable_or : Bool → Option JobError → Bool
retryable_or unknown none = unknown
retryable_or unknown (some je) = retryable je

-- `isRetryableJobError`: an error of no known kind is retried.
unfoldable pub is_retryable_job_error : Error → Bool
is_retryable_job_error e = retryable_or true (as_job_error e)

-- `classifyHTTPStatus`
unfoldable pub classify_http_status : ℕ → Error
classify_http_status status =
    if leb 500 status || nat_eq status 429
    then job (job_error "downstream error" true status nil)
    else if nat_eq status 400 || (nat_eq status 404 || nat_eq status 422)
    then job (job_error "downstream rejected job" false status nil)
    else job (job_error "downstream unexpected status" false status nil)

-- `permanentJobError`
unfoldable pub permanent_job_error : String → Error → JobError
permanent_job_error msg e = job_error msg false 0 (cause e)

-- `retryableJobError`
unfoldable pub retryable_job_error : String → Error → ℕ → JobError
retryable_job_error msg e status = job_error msg true status (cause e)
