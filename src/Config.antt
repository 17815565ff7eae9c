-- ===== src/Config.antt =====
-- internal/config: what each process reads from its environment. The file `.env` (godotenv) and
-- the parsers of net/url and time are parameters.
pub mod Csv
pub mod Steps
pub mod Loads
use go_stripe_webhook_k8s.Base.{
  ℕ, ℤ, pos, is_positive, String, Bool, true, false, List, [], ◌∷◌, ◌++◌, ◌==◌, string_eq, ◌||◌,
  if◌then◌else◌,
}
use go_stripe_webhook_k8s.Go.{Error, plain, wrapped, Result, ok, err}
use go_stripe_webhook_k8s.Text.{trim_space, split}

-- What `os.Getenv` answers for each name; it is empty for a variable that is not set.
abbrev pub Environ : Type 0
Environ = String → String

-- `Config`
pub record Config : Type 0 where
  pub stripe_webhook_secret : String
  pub database_url : String
  pub port : String

pub record WorkerConfig : Type 0 where
  pub database_url : String
  pub kafka_brokers : List String
  pub kafka_topic : String
  pub kafka_group_id : String
  pub downstream_url : String

-- `poll_interval` is in nanoseconds.
pub record PublisherConfig : Type 0 where
  pub database_url : String
  pub kafka_brokers : List String
  pub kafka_topic : String
  pub poll_interval : ℤ

-- The parts of `url.URL` that the code reads.
pub record Url : Type 0 where
  pub scheme : String
  pub host : String

abbrev pub default_port : String
default_port = "8080"

-- `time.Second`
abbrev pub default_publisher_poll_interval : ℤ
default_publisher_poll_interval = pos 1000000000

-- `strings.TrimSpace(os.Getenv(name))`
abbrev pub trimmed : Environ → String → String
trimmed getenv name = trim_space (getenv name)

-- `if x == "" { return nil, errors.New(…) }`, and the rest.
unfoldable pub require : {A : Type 0} → String → String → (String → Result A) → Result A
require why value next = if value == "" then err (plain why) else next value

-- The loop of `splitCSV`, with what it has collected.
unfoldable pub csv_from : List String → List String → List String
csv_from out [] = out
csv_from out (p ∷ ps) = csv_from (if trim_space p == "" then out else out ++ trim_space p ∷ []) ps

-- `splitCSV`
unfoldable pub split_csv : String → List String
split_csv s = csv_from [] (split s b',')

-- `if len(brokers) == 0 { return nil, errors.New(…) }`, and the rest.
unfoldable pub require_broker : {A : Type 0} → List String → (List String → Result A) → Result A
require_broker [] next = err (plain "config: KAFKA_BROKERS must contain at least one broker")
require_broker (b ∷ bs) next = next (b ∷ bs)

-- The variable KAFKA_BROKERS.
unfoldable pub brokers_of : {A : Type 0} → Environ → (List String → Result A) → Result A
brokers_of getenv next =
    require "config: KAFKA_BROKERS is required" (trimmed getenv "KAFKA_BROKERS")
      λ raw. require_broker (split_csv raw) next

abbrev pub checked_url : String → Result Url → Result String
checked_url raw (err e) = err (wrapped "config: invalid DOWNSTREAM_URL" e)
checked_url raw (ok u) =
    if u.scheme == "http" || u.scheme == "https"
    then (if u.host == "" then err (plain "config: DOWNSTREAM_URL must include a host") else ok raw)
    else err (plain "config: DOWNSTREAM_URL must use http or https")

-- `validateDownstreamURL`
unfoldable pub validate_downstream_url : (String → Result Url) → String → Result String
validate_downstream_url parse raw = checked_url raw (parse raw)

-- `if err != nil { return nil, err }`, and the rest.
abbrev pub and_then : {A B : Type 0} → Result A → (A → Result B) → Result B
and_then (ok a) next = next a
and_then (err e) next = err e

abbrev pub checked_interval : Result ℤ → Result ℤ
checked_interval (err e) =
    err (plain "config: PUBLISHER_POLL_INTERVAL must be a duration (e.g. 1s)")
checked_interval (ok d) =
    if is_positive d then ok d else err (plain "config: PUBLISHER_POLL_INTERVAL must be positive")

-- The variable POLL_INTERVAL, or its default.
unfoldable pub poll_interval_of : (String → Result ℤ) → String → Result ℤ
poll_interval_of parse_duration raw =
    if raw == "" then ok default_publisher_poll_interval else checked_interval (parse_duration raw)

-- `dotenv` is what `godotenv.Load` makes of the environment.
module _ (dotenv : Environ → Environ) where
  -- `Load`
  unfoldable pub load : Environ → Result Config
  load env =
      let getenv = dotenv env in
      let port = trimmed getenv "PORT" in
      require "config: STRIPE_WEBHOOK_SECRET is required" (trimmed getenv "STRIPE_WEBHOOK_SECRET")
        λ secret. require "config: DATABASE_URL is required" (trimmed getenv "DATABASE_URL") λ url.
          ok (record {
            stripe_webhook_secret = secret;
            database_url = url;
            port = if port == "" then default_port else port;
          })

  -- `LoadWorker`
  unfoldable pub load_worker : (String → Result Url) → Environ → Result WorkerConfig
  load_worker parse_url env =
      let getenv = dotenv env in
      brokers_of getenv λ brokers.
        require "config: KAFKA_TOPIC is required" (trimmed getenv "KAFKA_TOPIC") λ topic.
          require "config: KAFKA_GROUP_ID is required" (trimmed getenv "KAFKA_GROUP_ID") λ group_id.
            require "config: DATABASE_URL is required" (trimmed getenv "DATABASE_URL")
              λ database_url.
                require "config: DOWNSTREAM_URL is required" (trimmed getenv "DOWNSTREAM_URL")
                  λ raw. and_then (validate_downstream_url parse_url raw) λ downstream_url.
                    ok (record {
                      database_url = database_url;
                      kafka_brokers = brokers;
                      kafka_topic = topic;
                      kafka_group_id = group_id;
                      downstream_url = downstream_url;
                    })

  -- `LoadPublisher`
  unfoldable pub load_publisher : (String → Result ℤ) → Environ → Result PublisherConfig
  load_publisher parse_duration env =
      let getenv = dotenv env in
      require "config: DATABASE_URL is required" (trimmed getenv "DATABASE_URL") λ database_url.
        brokers_of getenv λ brokers.
          require "config: KAFKA_TOPIC is required" (trimmed getenv "KAFKA_TOPIC") λ topic.
            and_then (poll_interval_of parse_duration (trimmed getenv "POLL_INTERVAL")) λ poll.
              ok (record {
                database_url = database_url;
                kafka_brokers = brokers;
                kafka_topic = topic;
                poll_interval = poll;
              })
