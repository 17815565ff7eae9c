-- ===== src/Tests/Config.antt =====
-- The loaders of the configuration on a small environment.
use go_stripe_webhook_k8s.Base.{
  ℤ, pos, String, ◌≡◌, ◌↔◌, refl, List, [], ◌∷◌, map, ◌==◌, string_eq, if◌then◌else◌, All,
}
use go_stripe_webhook_k8s.Go.{plain, Result, ok, err}
use go_stripe_webhook_k8s.Text.{
  trim_space, trim_left, trim_right, before, is_space, split, in_front,
}
use go_stripe_webhook_k8s.Config.{
  Environ, Config, WorkerConfig, PublisherConfig, Url, load, load_worker, load_publisher, split_csv,
  csv_from, require, require_broker, brokers_of, validate_downstream_url, poll_interval_of,
}
use go_stripe_webhook_k8s.Config.Csv.{
  IsEntry, split_csv-All, join, split_csv-join, without_blanks, split_csv_lem,
}
use go_stripe_webhook_k8s.Config.Loads.{
  LoadsWorker, LoadsPublisher, load_worker_iff, load_publisher_iff,
}

abbrev pub same_env : Environ → Environ
same_env env = env

abbrev pub cluster : Environ
cluster name =
    if name == "KAFKA_BROKERS"
    then " kafka-0:9092, kafka-1:9092 ,,"
    else if name == "KAFKA_TOPIC"
    then "stripe-events"
    else if name == "KAFKA_GROUP_ID"
    then "billing"
    else if name == "DATABASE_URL"
    then "postgres://db"
    else if name == "STRIPE_WEBHOOK_SECRET"
    then " whsec "
    else if name == "DOWNSTREAM_URL"
    then "http://billing"
    else ""

abbrev pub web : String → Result Url
web raw = ok (record { scheme = "http"; host = "billing" })

abbrev no_duration : String → Result ℤ
no_duration raw = err (plain "time: invalid duration")

abbrev brokers : List String
brokers = "kafka-0:9092" ∷ "kafka-1:9092" ∷ []

abbrev api_config : Config
api_config = record {
  stripe_webhook_secret = "whsec";
  database_url = "postgres://db";
  port = "8080";
}

abbrev worker_config : WorkerConfig
worker_config = record {
  database_url = "postgres://db";
  kafka_brokers = brokers;
  kafka_topic = "stripe-events";
  kafka_group_id = "billing";
  downstream_url = "http://billing";
}

abbrev publisher_config : PublisherConfig
publisher_config = record {
  database_url = "postgres://db";
  kafka_brokers = brokers;
  kafka_topic = "stripe-events";
  poll_interval = pos 1000000000;
}

-- Opens the loaders.
loaders : Unit {0}
unfolding load load_worker load_publisher require require_broker brokers_of validate_downstream_url
    poll_interval_of split_csv csv_from split in_front trim_space trim_left trim_right before
    is_space
loaders = tt

load_run : load same_env cluster ≡ ok api_config
unfolding loaders
load_run = refl

load_worker_run : load_worker same_env web cluster ≡ ok worker_config
unfolding loaders
load_worker_run = refl

load_publisher_run : load_publisher same_env no_duration cluster ≡ ok publisher_config
unfolding loaders
load_publisher_run = refl

load_worker_iff_example :
    (load_worker same_env web cluster ≡ ok worker_config) ↔ LoadsWorker web cluster worker_config
load_worker_iff_example = load_worker_iff same_env web cluster worker_config

load_publisher_iff_example :
    (load_publisher same_env no_duration cluster ≡ ok publisher_config)
    ↔ LoadsPublisher no_duration cluster publisher_config
load_publisher_iff_example = load_publisher_iff same_env no_duration cluster publisher_config

split_csv-All_example : All IsEntry (split_csv " kafka-0:9092, kafka-1:9092 ,,")
split_csv-All_example = split_csv-All " kafka-0:9092, kafka-1:9092 ,,"

brokers_are : All IsEntry brokers
unfolding loaders
brokers_are = split_csv-All "kafka-0:9092,kafka-1:9092"

split_csv-join_example : split_csv (join brokers) ≡ brokers
split_csv-join_example = split_csv-join brokers brokers_are

split_csv_lem_example :
    split_csv " kafka-0:9092, ,kafka-1:9092"
    ≡ without_blanks (map trim_space (split " kafka-0:9092, ,kafka-1:9092" b','))
split_csv_lem_example = split_csv_lem " kafka-0:9092, ,kafka-1:9092"
