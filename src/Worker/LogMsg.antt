-- ===== src/Worker/LogMsg.antt =====
-- Log message names of cmd/worker/logmsg.go.
use go_stripe_webhook_k8s.Base.{String}

abbrev pub config_load_failed : String
config_load_failed = "config_load_failed"

abbrev pub store_open_failed : String
store_open_failed = "store_open_failed"

abbrev pub worker_started : String
worker_started = "worker_started"

abbrev pub shutting_down : String
shutting_down = "shutting_down"

abbrev pub kafka_client_failed : String
kafka_client_failed = "kafka_client_failed"

abbrev pub kafka_fetch_failed : String
kafka_fetch_failed = "kafka_fetch_failed"

abbrev pub kafka_commit_failed : String
kafka_commit_failed = "kafka_commit_failed"

abbrev pub stripe_job_consumed : String
stripe_job_consumed = "stripe_job_consumed"

abbrev pub stripe_job_unmarshal_failed : String
stripe_job_unmarshal_failed = "stripe_job_unmarshal_failed"

abbrev pub stripe_job_duplicate_skipped : String
stripe_job_duplicate_skipped = "stripe_job_duplicate_skipped"

abbrev pub stripe_job_handled : String
stripe_job_handled = "stripe_job_handled"

abbrev pub stripe_job_downstream_failed : String
stripe_job_downstream_failed = "stripe_job_downstream_failed"

abbrev pub consumer_completion_failed : String
consumer_completion_failed = "consumer_completion_failed"
