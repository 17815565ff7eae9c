-- ===== src/Publisher/LogMsg.antt =====
-- Log message names of cmd/publisher/logmsg.go.
use go_stripe_webhook_k8s.Base.{String}

abbrev pub config_load_failed : String
config_load_failed = "config_load_failed"

abbrev pub store_open_failed : String
store_open_failed = "store_open_failed"

abbrev pub publisher_started : String
publisher_started = "publisher_started"

abbrev shutting_down : String
shutting_down = "shutting_down"

abbrev pub kafka_client_failed : String
kafka_client_failed = "kafka_client_failed"

abbrev pub outbox_publish_succeeded : String
outbox_publish_succeeded = "outbox_publish_succeeded"

abbrev pub outbox_publish_failed : String
outbox_publish_failed = "outbox_publish_failed"

abbrev pub outbox_mark_published_failed : String
outbox_mark_published_failed = "outbox_mark_published_failed"
