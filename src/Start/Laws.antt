-- ===== src/Start/Laws.antt =====
-- What the main functions have made sure of where they begin their work, and how they end.
use go_stripe_webhook_k8s.Base.{
  inl, inr, ◌⊎◌, String, ◌≡◌, refl, Option, none, some, List, [], ◌∷◌, ◌++◌,
}
use go_stripe_webhook_k8s.Go.{Error, wrapped, Result, ok, err}
use go_stripe_webhook_k8s.Monad.{M}
use go_stripe_webhook_k8s.Log.{text, Entry, log_error}
use go_stripe_webhook_k8s.Store.Open.{Dialer, pinged, opened, new_postgres}
use go_stripe_webhook_k8s.Config.{Environ, Url, WorkerConfig, load_worker}
use go_stripe_webhook_k8s.Config.Loads.{LoadsWorker, load_worker_iff}
use go_stripe_webhook_k8s.Start.{
  World, Process, exited, running, logged, on_outside, or_exit, worker_started_entry, start_worker,
  ServerEvent, closed, listen_failed, signalled, shut_down, run_server,
}

module _ {D S : Type 0} (dialer : Dialer D S) (dsn : String) (d : D) where
  -- What `NewPostgres` did by its answer and by what it left outside.
  abbrev pub OpenOutcome : Result S → D → Type 0
  OpenOutcome (ok s) e =
      (d1 : D) × (dialer.connect dsn d ≡ (ok s, d1)) × (dialer.ping s d1 ≡ (ok tt, e))
  OpenOutcome (err why) e =
      ((m : Error) × (why ≡ wrapped "store: open postgres" m) × (dialer.connect dsn d ≡ (err m, e)))
      ⊎ ((s : S) × (d1 d2 : D) × (m : Error) × (why ≡ wrapped "store: ping postgres" m)
          × (dialer.connect dsn d ≡ (ok s, d1))
          × (dialer.ping s d1 ≡ (err m, d2))
          × (e ≡ dialer.close s d2))

  pinged-outcome :
      (s : S) (d1 : D) (x : Result (Unit {0}) × D)
      → dialer.connect dsn d ≡ (ok s, d1)
      → dialer.ping s d1 ≡ x
      → OpenOutcome (pinged dialer s x).0 (pinged dialer s x).1
  pinged-outcome s d1 (ok tt, e) opens pings = (d1, opens, pings)
  pinged-outcome s d1 (err m, d2) opens pings = inr (s, d1, d2, m, refl, opens, pings, refl)

  opened-outcome :
      (x : Result S × D)
      → dialer.connect dsn d ≡ x
      → OpenOutcome (opened dialer x).0 (opened dialer x).1
  opened-outcome (ok s, d1) opens = pinged-outcome s d1 (dialer.ping s d1) opens refl
  opened-outcome (err m, e) opens = inl (m, refl, opens)

  -- `NewPostgres` answers a pool only where the database answered a ping on it, and on an error no
  -- pool is left: either none was opened, or it was closed after the ping failed.
  pub new_postgres-outcome : OpenOutcome (new_postgres dialer dsn d).0 (new_postgres dialer dsn d).1
  unfolding new_postgres
  new_postgres-outcome = opened-outcome (dialer.connect dsn d) refl

module _ {D S K : Type 0} (connect : String → M D S) (dotenv : Environ → Environ)
    (parse_url : String → Result Url) (env : Environ) (new_client : WorkerConfig → M D K)
    (w : World D) where
  -- How the worker's start ended, by the world that it left.
  abbrev pub StartOutcome : Process (WorkerConfig × S × K) → World D → Type 0
  StartOutcome (exited code) v =
      (code ≡ 1)
      × (name why : String) × (v.log ≡ w.log ++ log_error name (("error", text why) ∷ []) ∷ [])
  StartOutcome (running (cfg, st, client)) v =
      LoadsWorker parse_url (dotenv env) cfg
      × (d : D) × (connect cfg.database_url w.outside ≡ (ok st, d))
      × (new_client cfg d ≡ (ok client, v.outside))
      × (v.log ≡ w.log ++ worker_started_entry cfg ∷ [])

  client-outcome :
      (cfg : WorkerConfig) (st : S) (d : D) (x : Result K × D)
      → LoadsWorker parse_url (dotenv env) cfg
      → connect cfg.database_url w.outside ≡ (ok st, d)
      → new_client cfg d ≡ x
      → let (p, v) =
          or_exit {B = WorkerConfig × S × K} "kafka_client_failed"
            (λ client w. (running (cfg, st, client), logged (worker_started_entry cfg) w))
            (x.0, record w { outside = x.1 }) in
        StartOutcome p v
  client-outcome cfg st d (ok client, d') loads connects makes = (loads, d, connects, makes, refl)
  client-outcome cfg st d (err e, d') loads connects makes = (refl, _, _, refl)

  store-outcome :
      (cfg : WorkerConfig) (x : Result S × D)
      → LoadsWorker parse_url (dotenv env) cfg
      → connect cfg.database_url w.outside ≡ x
      → let (p, v) =
          or_exit {B = WorkerConfig × S × K} "store_open_failed"
            (λ st w.
              or_exit {B = WorkerConfig × S × K} "kafka_client_failed"
                (λ client w. (running (cfg, st, client), logged (worker_started_entry cfg) w))
                (on_outside (new_client cfg) w))
            (x.0, record w { outside = x.1 }) in
        StartOutcome p v
  store-outcome cfg (ok st, d) loads connects =
      client-outcome cfg st d (new_client cfg d) loads connects refl
  store-outcome cfg (err e, d) loads connects = (refl, _, _, refl)

  config-outcome :
      (x : Result WorkerConfig)
      → load_worker dotenv parse_url env ≡ x
      → let (p, v) = start_worker connect x new_client w in StartOutcome p v
  unfolding start_worker
  config-outcome (ok cfg) loads =
      store-outcome cfg (connect cfg.database_url w.outside)
        ((load_worker_iff dotenv parse_url env cfg).0 loads) refl
  config-outcome (err e) loads = (refl, _, _, refl)

  -- A worker that goes on has a configuration with at least one broker, a topic, a group, a database
  -- and a web address, a store opened at that database and a client made for that configuration, and
  -- has logged that it started; one that does not has logged one error more and exits with code 1.
  pub start_worker-outcome :
      StartOutcome
        (start_worker connect (load_worker dotenv parse_url env) new_client w).0
        (start_worker connect (load_worker dotenv parse_url env) new_client w).1
  start_worker-outcome = config-outcome (load_worker dotenv parse_url env) refl

-- The first event that is not the end of a server that was shut down.
abbrev pub decisive : List ServerEvent → Option ServerEvent
decisive [] = none
decisive (closed ∷ events) = decisive events
decisive (listen_failed e ∷ events) = some (listen_failed e)
decisive (signalled name ∷ events) = some (signalled name)

module _ {D : Type 0} (shutdown : M D (Unit {0})) (addr : String) (w : World D) where
  -- How the server's life ends, by its first decisive event.
  abbrev pub ServerOutcome : Option ServerEvent → Process (Unit {0}) → World D → Type 0
  ServerOutcome none p v = (p ≡ running tt) × (v ≡ w)
  ServerOutcome (some closed) p v = ⊥
  ServerOutcome (some (listen_failed e)) p v = (p ≡ exited 1) × (v.outside ≡ w.outside)
  ServerOutcome (some (signalled name)) p v = (p ≡ exited 0) × (v.outside ≡ (shutdown w.outside).1)

  shut_down-outcome :
      (x : Result (Unit {0}) × D) (entry : Entry)
      → let (p, v) = shut_down shutdown addr (x.0, record (logged entry w) { outside = x.1 }) in
        (p ≡ exited 0) × (v.outside ≡ x.1)
  shut_down-outcome (ok u, d) entry = (refl, refl)
  shut_down-outcome (err e, d) entry = (refl, refl)

  -- The API's process waits as long as nothing but the end of a shut down server is seen. A listener
  -- that fails ends it with code 1 and without a shutdown; a signal that comes first ends it with
  -- code 0 after one shutdown, also if that fails.
  pub run_server-outcome :
      (events : List ServerEvent)
      → ServerOutcome
          (decisive events)
          (run_server shutdown addr events w).0
          (run_server shutdown addr events w).1
  unfolding run_server
  run_server-outcome [] = (refl, refl)
  run_server-outcome (closed ∷ events) = run_server-outcome events
  run_server-outcome (listen_failed e ∷ events) = (refl, refl)
  run_server-outcome (signalled name ∷ events) = shut_down-outcome (shutdown w.outside) _
