-- ===== src/Config/Loads.antt =====
-- When a process has what it needs: the loaders of internal/config, stated by the variables.
use go_stripe_webhook_k8s.Base.{
  subst, ℤ, String, ◌≡◌, ◌≢◌, ◌↔◌, refl, ◌==◌, string_eq, if◌then◌else◌,
}
use go_stripe_webhook_k8s.Go.{Result, ok}
use go_stripe_webhook_k8s.Config.{
  Environ, Config, WorkerConfig, PublisherConfig, Url, default_port, trimmed, load, load_worker,
  load_publisher,
}
use go_stripe_webhook_k8s.Config.Steps.{
  ok_inj, require_iff, and_then_iff, brokers_of_iff, validate_downstream_url_iff,
  poll_interval_of_iff, HasBrokers, IsWebAddress, HasInterval,
}

-- The values that `Load` reads, and that the required ones are there.
abbrev pub Loads : Environ → Config → Type 0
Loads getenv cfg =
    (cfg.stripe_webhook_secret ≢ "")
    × (trimmed getenv "STRIPE_WEBHOOK_SECRET" ≡ cfg.stripe_webhook_secret)
    × (cfg.database_url ≢ "")
    × (trimmed getenv "DATABASE_URL" ≡ cfg.database_url)
    × (cfg.port ≡ (if trimmed getenv "PORT" == "" then default_port else trimmed getenv "PORT"))

-- The values that `LoadWorker` reads, and that they are there and can be used.
abbrev pub LoadsWorker : (String → Result Url) → Environ → WorkerConfig → Type 0
LoadsWorker parse_url getenv cfg =
    HasBrokers getenv cfg.kafka_brokers
    × (cfg.kafka_topic ≢ "")
    × (trimmed getenv "KAFKA_TOPIC" ≡ cfg.kafka_topic)
    × (cfg.kafka_group_id ≢ "")
    × (trimmed getenv "KAFKA_GROUP_ID" ≡ cfg.kafka_group_id)
    × (cfg.database_url ≢ "")
    × (trimmed getenv "DATABASE_URL" ≡ cfg.database_url)
    × (cfg.downstream_url ≢ "")
    × (trimmed getenv "DOWNSTREAM_URL" ≡ cfg.downstream_url)
    × IsWebAddress (parse_url cfg.downstream_url)

abbrev pub LoadsPublisher : (String → Result ℤ) → Environ → PublisherConfig → Type 0
LoadsPublisher parse_duration getenv cfg =
    HasBrokers getenv cfg.kafka_brokers
    × (cfg.database_url ≢ "")
    × (trimmed getenv "DATABASE_URL" ≡ cfg.database_url)
    × (cfg.kafka_topic ≢ "")
    × (trimmed getenv "KAFKA_TOPIC" ≡ cfg.kafka_topic)
    × HasInterval parse_duration (trimmed getenv "POLL_INTERVAL") cfg.poll_interval

-- `LoadPublisher` succeeds exactly with the trimmed variables, where the database, the topic and at
-- least one broker are given, and with the default interval or a positive one.
pub load_publisher_iff :
    (dotenv : Environ → Environ) (parse_duration : String → Result ℤ) (env : Environ)
    (cfg : PublisherConfig)
    → (load_publisher dotenv parse_duration env ≡ ok cfg)
      ↔ LoadsPublisher parse_duration (dotenv env) cfg
unfolding load_publisher
load_publisher_iff dotenv parse_duration env cfg =
    let getenv = dotenv env in
    (
      λ h.
          let (db, h1) = (require_iff _ (trimmed getenv "DATABASE_URL") _ cfg).0 h in
          let (brokers, has, h2) = (brokers_of_iff getenv _ cfg).0 h1 in
          let (topic, h3) = (require_iff _ (trimmed getenv "KAFKA_TOPIC") _ cfg).0 h2 in
          let (d, interval, h4) = (and_then_iff _ _ cfg).0 h3 in
          let is =
            (poll_interval_of_iff parse_duration (trimmed getenv "POLL_INTERVAL") d).0 interval in
          subst (LoadsPublisher parse_duration getenv) (ok_inj _ _ h4)
            (has, db, refl, topic, refl, is),
      λ (has, db, db_is, topic, topic_is, interval).
          (require_iff _ (trimmed getenv "DATABASE_URL") _ cfg).1 (
            rw db_is db,
            (brokers_of_iff getenv _ cfg).1 (
              cfg.kafka_brokers,
              has,
              (require_iff _ (trimmed getenv "KAFKA_TOPIC") _ cfg).1 (
                rw topic_is topic,
                (and_then_iff _ _ cfg).1 (
                  cfg.poll_interval,
                  (poll_interval_of_iff parse_duration _ cfg.poll_interval).1 interval,
                  rw (db_is, topic_is) refl,
                ),
              ),
            ),
          ),
    )

-- `Load` succeeds exactly with the trimmed variables, where the secret and the database are given,
-- and with port 8080 where no port is.
pub load_iff :
    (dotenv : Environ → Environ) (env : Environ) (cfg : Config)
    → (load dotenv env ≡ ok cfg) ↔ Loads (dotenv env) cfg
unfolding load
load_iff dotenv env cfg =
    let getenv = dotenv env in
    (
      λ h.
          let (secret, h1) = (require_iff _ (trimmed getenv "STRIPE_WEBHOOK_SECRET") _ cfg).0 h in
          let (db, h2) = (require_iff _ (trimmed getenv "DATABASE_URL") _ cfg).0 h1 in
          subst (Loads getenv) (ok_inj _ _ h2) (secret, refl, db, refl, refl),
      λ (secret, secret_is, db, db_is, port_is).
          (require_iff _ (trimmed getenv "STRIPE_WEBHOOK_SECRET") _ cfg).1 (
            rw secret_is secret,
            (require_iff _ (trimmed getenv "DATABASE_URL") _ cfg).1
                (rw db_is db, rw (secret_is, db_is, ← port_is) refl),
          ),
    )

-- `LoadWorker` succeeds exactly with the trimmed variables, where at least one broker, the topic, the
-- group, the database and the downstream address are given, and the address is one of http or https
-- with a host.
pub load_worker_iff :
    (dotenv : Environ → Environ) (parse_url : String → Result Url) (env : Environ)
    (cfg : WorkerConfig)
    → (load_worker dotenv parse_url env ≡ ok cfg) ↔ LoadsWorker parse_url (dotenv env) cfg
unfolding load_worker
load_worker_iff dotenv parse_url env cfg =
    let getenv = dotenv env in
    (
      λ h.
          let (brokers, has, h1) = (brokers_of_iff getenv _ cfg).0 h in
          let (topic, h2) = (require_iff _ (trimmed getenv "KAFKA_TOPIC") _ cfg).0 h1 in
          let (group, h3) = (require_iff _ (trimmed getenv "KAFKA_GROUP_ID") _ cfg).0 h2 in
          let (db, h4) = (require_iff _ (trimmed getenv "DATABASE_URL") _ cfg).0 h3 in
          let (set, h5) = (require_iff _ (trimmed getenv "DOWNSTREAM_URL") _ cfg).0 h4 in
          let (url, checked, h6) = (and_then_iff _ _ cfg).0 h5 in
          let (web, same) = (validate_downstream_url_iff parse_url _ url).0 checked in
          subst (LoadsWorker parse_url getenv) (ok_inj _ _ h6)
            (has, topic, refl, group, refl, db, refl, rw (← same) set, same, rw (← same) web),
      λ (has, topic, topic_is, group, group_is, db, db_is, set, url_is, web).
          (brokers_of_iff getenv _ cfg).1 (
            cfg.kafka_brokers,
            has,
            (require_iff _ (trimmed getenv "KAFKA_TOPIC") _ cfg).1 (
              rw topic_is topic,
              (require_iff _ (trimmed getenv "KAFKA_GROUP_ID") _ cfg).1 (
                rw group_is group,
                (require_iff _ (trimmed getenv "DATABASE_URL") _ cfg).1 (
                  rw db_is db,
                  (require_iff _ (trimmed getenv "DOWNSTREAM_URL") _ cfg).1 (
                    rw url_is set,
                    (and_then_iff _ _ cfg).1 (
                      cfg.downstream_url,
                      (validate_downstream_url_iff parse_url _ cfg.downstream_url).1
                          (rw url_is web, url_is),
                      rw (topic_is, group_is, db_is) refl,
                    ),
                  ),
                ),
              ),
            ),
          ),
    )
