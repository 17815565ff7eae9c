-- ===== src/System.antt =====
-- The processes of cmd/api, cmd/worker and cmd/publisher over one database: requests, the worker's loop
-- and the publisher's loop, one after the other, while other such processes change the tables
-- between any two calls.
use go_stripe_webhook_k8s.Base.{String, ◌≡◌, refl, sym, subst, none, Bool, List, Option}
use go_stripe_webhook_k8s.Go.{Bytes, Result}
use go_stripe_webhook_k8s.Log.{Entry}
use go_stripe_webhook_k8s.Engine.{Job}
use go_stripe_webhook_k8s.Store.Driver.{Session}
use go_stripe_webhook_k8s.Store.Rely.{Rely, Left, Left-Rely, Left-refl, Left-trans}
use go_stripe_webhook_k8s.Store.Valid.{IsValid}
use go_stripe_webhook_k8s.Store.Evolves.{Evolves}
use go_stripe_webhook_k8s.Store.Reach.{Reach, Reach-Respects}
use go_stripe_webhook_k8s.Store.Invariant.{Reach-IsValid}
use go_stripe_webhook_k8s.Api.{Event}
use go_stripe_webhook_k8s.Api.Http.{ResponseWriter}
use go_stripe_webhook_k8s.Api.Middleware.{Logger, Ambient, Handler, HttpRequest}
use go_stripe_webhook_k8s.Api.Routes.{new_app, serve}
use go_stripe_webhook_k8s.Config.{Config}
use go_stripe_webhook_k8s.Store.Interface
use go_stripe_webhook_k8s.Api.Changes.{serve-Left}
use go_stripe_webhook_k8s.Worker.Downstream.{DownstreamClient}
use go_stripe_webhook_k8s.Worker.Record.{handle_record}
use go_stripe_webhook_k8s.Worker.Postgres
use go_stripe_webhook_k8s.Worker.Loop.{Poll, KafkaClient, run_worker}
use go_stripe_webhook_k8s.Worker.Changes.{handle_record-Left}
use go_stripe_webhook_k8s.Worker.Loop.Changes.{run_worker-keeps}
use go_stripe_webhook_k8s.Publisher.{KafkaProducer, run_publisher}
use go_stripe_webhook_k8s.Publisher.Outbox
use go_stripe_webhook_k8s.Publisher.Changes.{run_publisher-Left}

-- The code that the processes call and that is not theirs, over the state `N` of the network and the
-- states `K` and `L` of the Kafka clients of the worker and of the publisher, with responses `W`;
-- and their configuration.
pub record Outside (N K L W : Type 0) : Type 0 where
  pub jsonb : Bytes → Option Bytes
  pub construct_event : Bytes → String → String → Result Event
  pub marshal : Job → Result Bytes
  pub cfg : Config
  pub logger : Logger
  pub writer : ResponseWriter W
  pub downstream : DownstreamClient N
  pub unmarshal : Bytes → Result Job
  pub consumer : String
  pub client : KafkaClient K
  pub producer : KafkaProducer L
  pub topic : String

module _ {N K L W : Type 0} (o : Outside N K L W) where
  -- The API's handler of all requests.
  abbrev pub api : Ambient → Handler W Session
  api amb =
      serve (new_app o.cfg o.logger (Interface.postgres o.jsonb) o.construct_event o.marshal)
        o.writer amb

  -- A request to the API, a run of the worker or a run of the publisher takes the session from `s` to `t`.
  pub data Run (s t : Session) : Type 0 where
    request :
        (amb : Ambient) (r : HttpRequest) (w : W) (log : List Entry)
        → t ≡ (api amb r (record { writer = w; store = s; log = log })).1.store
        → Run s t
    worker :
        (polls : List Poll) (net : N) (kafka : K) (log : List Entry)
        → t
          ≡ (run_worker o.client
              (handle_record Postgres.postgres o.downstream o.unmarshal o.consumer)
              polls
              (record {
                env = record { store = s; net = net; log = log };
                kafka = kafka;
              })).env.store
        → Run s t
    publisher :
        (rounds : List Bool) (kafka : L) (log : List Entry)
        → t
          ≡ (run_publisher o.producer Outbox.postgres o.topic rounds
              (record { store = s; kafka = kafka; log = log })).store
        → Run s t

  -- Any number of them, in any order.
  pub data Runs (s : Session) : Session → Type 0 where
    start : Runs s s
    next : {t u : Session} → Runs s t → Run t u → Runs s u

  Run-Left :
      {s t : Session} → Run s t → s.tx ≡ none → IsValid s.db → Rely Reach s.script → Left Reach s t
  Run-Left {s} (request amb r w log e) closed valid rely = subst (Left Reach s) (sym e) (
      serve-Left o.jsonb o.cfg o.logger o.construct_event o.marshal o.writer amb r
        (record { writer = w; store = s; log = log }) closed valid rely)
  Run-Left {s} (worker polls net kafka log e) closed valid rely = subst (Left Reach s) (sym e) (
      run_worker-keeps o.client
        (handle_record Postgres.postgres o.downstream o.unmarshal o.consumer) (Left Reach s)
        (λ rec w left.
          handle_record-Left Reach-Respects o.downstream o.unmarshal o.consumer rec s rely w left)
        polls (record { env = record { store = s; net = net; log = log }; kafka = kafka })
        (Left-refl Reach-Respects.preorder s s closed refl refl refl))
  Run-Left {s} (publisher rounds kafka log e) closed valid rely = subst (Left Reach s) (sym e) (
      run_publisher-Left Reach-Respects.preorder Reach-Respects.publishes o.producer o.topic s rely
        rounds (record { store = s; kafka = kafka; log = log })
        (Left-refl Reach-Respects.preorder s s closed refl refl refl))

  -- On valid tables, whatever requests, runs of the worker and runs of the publisher happen one after
  -- the other, while the other clients change the tables only as such processes do, and however
  -- each call ends: all that happens to the tables is a sequence of the committed steps, no
  -- transaction is left open, the tables stay valid, and nothing that was final is undone.
  pub Runs-Reach :
      {s t : Session}
      → Runs s t
      → s.tx ≡ none
      → IsValid s.db
      → Rely Reach s.script
      → Left Reach s t × IsValid t.db × Evolves s.db t.db
  Runs-Reach {s} start closed valid rely =
      let left = Left-refl Reach-Respects.preorder s s closed refl refl refl in
      let (kept, evolves) = Reach-IsValid left.related valid in (left, kept, evolves)
  Runs-Reach {s} (next runs run) closed valid rely =
      let (before, valid', _) = Runs-Reach runs closed valid rely in
      let left =
        Left-trans Reach-Respects.preorder before
          (Run-Left run before.closed valid' (Left-Rely before rely)) in
      let (kept, evolves) = Reach-IsValid left.related valid in (left, kept, evolves)
