-- ===== src/Log.antt =====
-- Structured log entries (log/slog), as a list to which a logger adds.
use go_stripe_webhook_k8s.Base.{ℕ, String, Bool, List}

pub data Level : Type 0 where
  info error : Level

-- An attribute's value.
pub data Value : Type 0 where
  text : String → Value
  num : ℕ → Value
  flag : Bool → Value
  texts : List String → Value

pub record Entry : Type 0 where
  pub level : Level
  pub msg : String
  pub attrs : List (String × Value)

abbrev pub log_info : String → List (String × Value) → Entry
log_info msg attrs = record { level = info; msg = msg; attrs = attrs }

abbrev pub log_error : String → List (String × Value) → Entry
log_error msg attrs = record { level = error; msg = msg; attrs = attrs }
