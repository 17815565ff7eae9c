-- ===== src/Api/LogMsg.antt =====
-- Log message names of cmd/api/logmsg.go.
use go_stripe_webhook_k8s.Base.{String}

abbrev pub msg_request_started : String
msg_request_started = "request_started"

abbrev pub msg_request_completed : String
msg_request_completed = "request_completed"

abbrev pub msg_stripe_event_accepted : String
msg_stripe_event_accepted = "stripe_event_accepted"

abbrev pub msg_stripe_event_verify_failed : String
msg_stripe_event_verify_failed = "stripe_event_verify_failed"

abbrev pub msg_stripe_body_too_large : String
msg_stripe_body_too_large = "stripe_body_too_large"

abbrev pub msg_probe_encode_error : String
msg_probe_encode_error = "probe_encode_error"

abbrev pub msg_panic : String
msg_panic = "panic"

abbrev pub msg_config_load_failed : String
msg_config_load_failed = "config_load_failed"

abbrev pub msg_store_init_failed : String
msg_store_init_failed = "store_init_failed"

abbrev pub msg_server_listening : String
msg_server_listening = "server_listening"

abbrev pub msg_server_listen_error : String
msg_server_listen_error = "server_listen_error"

abbrev pub msg_shutting_down : String
msg_shutting_down = "shutting_down"

abbrev pub msg_server_shutdown_error : String
msg_server_shutdown_error = "server_shutdown_error"

abbrev pub msg_readyz_db_check_failed : String
msg_readyz_db_check_failed = "readyz_db_check_failed"

abbrev pub msg_stripe_event_duplicate_skipped : String
msg_stripe_event_duplicate_skipped = "stripe_event_duplicate_skipped"

abbrev pub msg_stripe_event_already_processing : String
msg_stripe_event_already_processing = "stripe_event_already_processing"

abbrev pub msg_stripe_event_process_failed : String
msg_stripe_event_process_failed = "stripe_event_process_failed"
