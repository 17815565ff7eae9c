-- ===== src/Go.antt =====
-- What the program takes from Go: `error` values with the chain that `%w` makes, a result that is a
-- value or an error, and byte strings. `JobError` (cmd/worker/job_error.go) stands here, since an
-- `error` may be one and may be its cause.
use go_stripe_webhook_k8s.Base.{ℕ, String, ◌<>◌, Bool, true, false, Option, none, some, List}

-- `[]byte`
abbrev pub Bytes : Type 0
Bytes = List ℕ

mutual
  -- `plain` is an error with a message only, such as those of `errors.New` and of the libraries;
  -- `no_rows` is `sql.ErrNoRows`; `wrapped m e` is `fmt.Errorf("m: %w", e)`.
  pub data Error : Type 0 where
    plain : String → Error
    no_rows : Error
    wrapped : String → Error → Error
    job : JobError → Error

  -- The fields are `Msg`, `Retryable`, `HTTPStatus` and `Cause`.
  pub data JobError : Type 0 where
    job_error : String → Bool → ℕ → Cause → JobError

  -- An `error` field that may be nil.
  pub data Cause : Type 0 where
    nil : Cause
    cause : Error → Cause

-- `errors.Is(err, sql.ErrNoRows)`: a `JobError` has no `Unwrap`, so its cause is not looked at.
abbrev pub is_no_rows : Error → Bool
is_no_rows (plain m) = false
is_no_rows no_rows = true
is_no_rows (wrapped m e) = is_no_rows e
is_no_rows (job je) = false

-- `errors.AsType[*JobError](err)`
abbrev pub as_job_error : Error → Option JobError
as_job_error (plain m) = none
as_job_error no_rows = none
as_job_error (wrapped m e) = as_job_error e
as_job_error (job je) = some je

mutual
  -- `err.Error()`
  pub message : Error → String
  message (plain m) = m
  message no_rows = "sql: no rows in result set"
  message (wrapped m e) = m <> (": " <> message e)
  message (job je) = job_message je

  -- `(*JobError).Error`
  pub job_message : JobError → String
  job_message (job_error msg retryable status c) = with_cause msg c

  pub with_cause : String → Cause → String
  with_cause msg nil = msg
  with_cause msg (cause e) = msg <> (": " <> message e)

-- A call's `(value, error)`.
pub data Result {ℓ} (A : Type ℓ) : Type ℓ where
  ok : A → Result A
  err : Error → Result A

abbrev pub is_ok {ℓ} : {A : Type ℓ} → Result A → Bool
is_ok (ok a) = true
is_ok (err e) = false
