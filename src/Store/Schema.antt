-- ===== src/Store/Schema.antt =====
-- The constants and result types of internal/store/store.go, and the tables of migrations/.
-- Columns that no statement of the code names (`failed_at`, `error_message`) are left out.
use go_stripe_webhook_k8s.Base.{ℕ, String, Bool, Option, List, string_eq}
use go_stripe_webhook_k8s.Go.{Bytes}

-- Values of processed_events.status.
abbrev pub status_processing : String
status_processing = "processing"

abbrev pub status_accepted : String
status_accepted = "accepted"

abbrev pub status_processed : String
status_processed = "processed"

abbrev pub status_failed : String
status_failed = "failed"

-- Values of outbox_events.status.
abbrev pub outbox_pending : String
outbox_pending = "pending"

abbrev pub outbox_published : String
outbox_published = "published"

abbrev pub outbox_failed : String
outbox_failed = "failed"

-- Values of consumer_completions.status.
abbrev pub completion_processing : String
completion_processing = "processing"

abbrev pub completion_processed : String
completion_processed = "processed"

abbrev pub completion_failed : String
completion_failed = "failed"

pub data CompletionClaimAction : Type 0 where
  claim_new claim_retry claim_retry_from_failed claim_already_processed : CompletionClaimAction

pub record CompletionClaim : Type 0 where
  pub action : CompletionClaimAction
  pub attempt_count : ℕ

pub record EventStatus : Type 0 where
  pub status : String
  pub found : Bool

pub record OutboxStatus : Type 0 where
  pub found : Bool
  pub status : String
  pub payload : Bytes

pub record CompletionStatus : Type 0 where
  pub found : Bool
  pub status : String
  pub attempt_count : ℕ
  pub error : String

pub record OutboxRow : Type 0 where
  pub event_id : String
  pub payload : Bytes

-- A row of processed_events.
pub record LedgerRecord : Type 0 where
  pub event_id : String
  pub event_type : String
  pub status : String
  pub received_at : ℕ
  pub processed_at : Option ℕ

-- A row of outbox_events. `id` is drawn from the sequence of BIGSERIAL.
pub record OutboxRecord : Type 0 where
  pub id : ℕ
  pub event_id : String
  pub event_type : String
  pub payload : Bytes
  pub status : String
  pub created_at : ℕ
  pub published_at : Option ℕ

-- A row of consumer_completions.
pub record CompletionRecord : Type 0 where
  pub event_id : String
  pub consumer_name : String
  pub event_type : String
  pub status : String
  pub error : Option String
  pub attempt_count : ℕ
  pub created_at : ℕ
  pub updated_at : ℕ
  pub processed_at : Option ℕ

-- The database: its tables, the next value of the outbox sequence, and what now() answers.
pub record Db : Type 0 where
  pub ledger : List LedgerRecord
  pub outbox : List OutboxRecord
  pub completions : List CompletionRecord
  pub next_id : ℕ
  pub now : ℕ

-- The primary key of consumer_completions.
abbrev pub completion_key : CompletionRecord → String × String
completion_key r = (r.event_id, r.consumer_name)

-- The largest value of a column of type INT.
abbrev pub max_int : ℕ
max_int = 2147483647
