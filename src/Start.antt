-- ===== src/Start.antt =====
-- The main functions of cmd/api, cmd/worker and cmd/publisher up to where they begin their work, and
-- the life of the API's server. The Kafka client and net/http are parameters.
pub mod Laws
use go_stripe_webhook_k8s.Api
use go_stripe_webhook_k8s.Worker
use go_stripe_webhook_k8s.Publisher
use go_stripe_webhook_k8s.Base.{ℕ, String, ◌<>◌, Option, none, some, List, [], ◌∷◌, ◌++◌}
use go_stripe_webhook_k8s.Go.{Error, message, Result, ok, err}
use go_stripe_webhook_k8s.Monad.{M}
use go_stripe_webhook_k8s.Log.{Value, text, texts, Entry, log_info, log_error}
use go_stripe_webhook_k8s.Config.{Config, WorkerConfig, PublisherConfig}

-- What lies outside of the process, and the log that it has written.
pub record World (D : Type 0) : Type 0 where
  pub outside : D
  pub log : List Entry

-- The process has called `os.Exit` or returned from `main`, or it goes on with `A`.
pub data Process (A : Type 0) : Type 0 where
  exited : ℕ → Process A
  running : A → Process A

module _ {D : Type 0} where
  abbrev pub logged : Entry → World D → World D
  logged e w = record w { log = w.log ++ e ∷ [] }

  abbrev pub on_outside : {A : Type 0} → M D A → M (World D) A
  on_outside m w = let (r, d) = m w.outside in (r, record w { outside = d })

  -- `if err != nil { logger.Error(name, "error", err.Error()); os.Exit(1) }`, and the rest.
  abbrev pub or_exit :
      {A B : Type 0}
      → String
      → (A → World D → Process B × World D)
      → Result A × World D
      → Process B × World D
  or_exit name next (ok a, w) = next a w
  or_exit name next (err e, w) =
      (exited 1, logged (log_error name (("error", text (message e)) ∷ [])) w)

abbrev pub worker_started_entry : WorkerConfig → Entry
worker_started_entry cfg = log_info Worker.LogMsg.worker_started (
    ("brokers", texts cfg.kafka_brokers)
    ∷ ("topic", text cfg.kafka_topic)
    ∷ ("group_id", text cfg.kafka_group_id)
    ∷ [])

-- `interval` is the text of the duration, `cfg.PollInterval.String()`.
abbrev pub publisher_started_entry : String → PublisherConfig → Entry
publisher_started_entry interval cfg = log_info Publisher.LogMsg.publisher_started (
    ("brokers", texts cfg.kafka_brokers)
    ∷ ("topic", text cfg.kafka_topic)
    ∷ ("poll_interval", text interval)
    ∷ [])

module _ {D S K : Type 0} (new_postgres : String → M D S) where
  -- `main` of cmd/worker, up to its loop.
  unfoldable pub start_worker :
      Result WorkerConfig
      → (WorkerConfig → M D K)
      → World D
      → Process (WorkerConfig × S × K) × World D
  start_worker config new_client w =
      or_exit Worker.LogMsg.config_load_failed
        (λ cfg w.
          or_exit Worker.LogMsg.store_open_failed
            (λ st w.
              or_exit Worker.LogMsg.kafka_client_failed
                (λ client w. (running (cfg, st, client), logged (worker_started_entry cfg) w))
                (on_outside (new_client cfg) w))
            (on_outside (new_postgres cfg.database_url) w))
        (config, w)

  -- `main` of cmd/publisher, up to its loop.
  unfoldable pub start_publisher :
      (PublisherConfig → String)
      → Result PublisherConfig
      → (PublisherConfig → M D K)
      → World D
      → Process (PublisherConfig × S × K) × World D
  start_publisher interval config new_client w =
      or_exit Publisher.LogMsg.config_load_failed
        (λ cfg w.
          or_exit Publisher.LogMsg.store_open_failed
            (λ st w.
              or_exit Publisher.LogMsg.kafka_client_failed
                (λ client w. (
                  running (cfg, st, client),
                  logged (publisher_started_entry (interval cfg) cfg) w,
                ))
                (on_outside (new_client cfg) w))
            (on_outside (new_postgres cfg.database_url) w))
        (config, w)

module _ {D S : Type 0} (new_postgres : String → M D S) where
  -- `main` of cmd/api, up to the start of its server.
  unfoldable pub start_api : Result Config → World D → Process (Config × S) × World D
  start_api config w =
      or_exit Api.LogMsg.msg_config_load_failed
        (λ cfg w.
          or_exit Api.LogMsg.msg_store_init_failed (λ st w. (running (cfg, st), w))
            (on_outside (new_postgres cfg.database_url) w))
        (config, w)

-- `srv.Addr`
abbrev pub server_addr : Config → String
server_addr cfg = ":" <> cfg.port

-- What `main` of cmd/api waits for: `ListenAndServe` returns, with no error other than
-- `http.ErrServerClosed` or with one, or a signal comes.
pub data ServerEvent : Type 0 where
  closed : ServerEvent
  listen_failed : Error → ServerEvent
  signalled : String → ServerEvent

module _ {D : Type 0} (shutdown : M D (Unit {0})) (addr : String) where
  abbrev pub shut_down : Result (Unit {0}) × World D → Process (Unit {0}) × World D
  shut_down (ok u, w) = (exited 0, w)
  shut_down (err e, w) = (
    exited 0,
    logged (log_error Api.LogMsg.msg_server_shutdown_error (("error", text (message e)) ∷ [])) w,
  )

  -- The server's life from there on, over the events in the order in which they are seen. Once
  -- `Shutdown` is called, `ListenAndServe` returns `http.ErrServerClosed`.
  unfoldable pub run_server : List ServerEvent → World D → Process (Unit {0}) × World D
  run_server [] w = (running tt, w)
  run_server (closed ∷ events) w = run_server events w
  run_server (listen_failed e ∷ events) w = (
    exited 1,
    logged
        (log_error Api.LogMsg.msg_server_listen_error
          (("error", text (message e)) ∷ ("addr", text addr) ∷ []))
        w,
  )
  run_server (signalled name ∷ events) w = shut_down (
      on_outside shutdown
        (logged (log_info Api.LogMsg.msg_shutting_down (("signal", text name) ∷ [])) w))

  -- The goroutine's first line, and then the server's life.
  unfoldable pub serve_until : List ServerEvent → World D → Process (Unit {0}) × World D
  serve_until events w =
      run_server events
        (logged (log_info Api.LogMsg.msg_server_listening (("addr", text addr) ∷ [])) w)
