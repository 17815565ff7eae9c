-- ===== src/Api.antt =====
-- `handleStripeWebhook` (cmd/api/handlers.go), over any store. Reading the body, the check of
-- Stripe's signature (`stripe.ConstructEvent`) and encoding/json are parameters.
pub mod LogMsg
pub mod Http
pub mod Middleware
pub mod Routes
pub mod Recorder
pub mod Final
pub mod Access
pub mod Guards
pub mod Accepts
pub mod Rejects
pub mod Changes
pub mod Serves
pub mod Told
use go_stripe_webhook_k8s.Api.LogMsg.{
  msg_stripe_body_too_large, msg_stripe_event_accepted, msg_stripe_event_already_processing,
  msg_stripe_event_duplicate_skipped, msg_stripe_event_process_failed,
  msg_stripe_event_verify_failed,
}
use go_stripe_webhook_k8s.Base.{
  ℕ, String, Bool, true, false, Option, none, some, List, [], ◌∷◌, ◌++◌, ◌==◌, string_eq, ◌||◌,
  if◌then◌else◌,
}
use go_stripe_webhook_k8s.Go.{Bytes, Error, message, Result, ok, err}
use go_stripe_webhook_k8s.Monad.{M}
use go_stripe_webhook_k8s.Log.{Value, text, num, Entry, log_info, log_error}
use go_stripe_webhook_k8s.Engine.{Job}
use go_stripe_webhook_k8s.Store.Interface.{Store}
use go_stripe_webhook_k8s.Store.Schema.{
  EventStatus, status_accepted, status_processed, status_processing,
}

-- What `io.ReadAll` gives for a body behind `http.MaxBytesReader`: the error of the limit is told
-- apart from the others.
pub data Body : Type 0 where
  read : Bytes → Body
  too_large : Body
  unreadable : Error → Body

-- What the handler uses of `http.Request`: the body, by the limit, and the header Stripe-Signature.
pub record Request : Type 0 where
  pub body : ℕ → Body
  pub signature : String

-- The fields of `stripe.Event` that the handler reads; `raw` is `Data.Raw`, if there is `Data`.
pub record Event : Type 0 where
  pub id : String
  pub event_type : String
  pub raw : Option Bytes

-- What the handler writes: a status and nothing else, or `http.Error` with the text of the status.
pub data Response : Type 0 where
  header : ℕ → Response
  http_error : ℕ → Response

-- What the handler calls of `store.Store`, over its state `S`.
pub record EventStore (S : Type 0) : Type 0 where
  pub accept_event : String → String → Bytes → M S Bool
  pub status : String → M S EventStatus

-- That of a `store.Store`.
abbrev pub event_store : {S : Type 0} → Store S → EventStore S
event_store st = record { accept_event = st.accept_event; status = st.status }

pub record Env (S : Type 0) : Type 0 where
  pub store : S
  pub log : List Entry

-- `maxStripeWebhookBody`
abbrev pub max_stripe_webhook_body : ℕ
max_stripe_webhook_body = 1048576

-- `json.RawMessage("null")`
abbrev pub null_payload : Bytes
null_payload = 110 ∷ 117 ∷ 108 ∷ 108 ∷ []

-- The object of the event, or null if it is missing or empty.
abbrev pub payload_of : Option Bytes → Bytes
payload_of none = null_payload
payload_of (some []) = null_payload
payload_of (some (b ∷ bs)) = b ∷ bs

abbrev pub job_of : Event → Job
job_of ev = record {
  stripe_event_id = ev.id;
  event_type = ev.event_type;
  payload = payload_of ev.raw;
}

abbrev pub event_attrs : Event → List (String × Value)
event_attrs ev = ("event_id", text ev.id) ∷ ("event_type", text ev.event_type) ∷ []

-- The log entry for an event that was there already, by its status.
abbrev pub duplicate_entry : Event → EventStatus → Entry
duplicate_entry ev es =
    if es.status == status_accepted || es.status == status_processed
    then log_info msg_stripe_event_duplicate_skipped (event_attrs ev)
    else if es.status == status_processing
    then log_info msg_stripe_event_already_processing (event_attrs ev)
    else log_info msg_stripe_event_duplicate_skipped
        (event_attrs ev ++ ("status", text es.status) ∷ [])

module _ {S : Type 0} where
  abbrev pub logged : Entry → Env S → Env S
  logged e w = record w { log = w.log ++ e ∷ [] }

  abbrev pub on_store : {A : Type 0} → M S A → M (Env S) A
  on_store m w = let (r, s) = m w.store in (r, record w { store = s })

  module _ (st : EventStore S) (construct_event : Bytes → String → String → Result Event)
      (marshal : Job → Result Bytes) (secret : String) where
    abbrev pub process_failed : Event → Error → Env S → Response × Env S
    process_failed ev e w = (
      http_error 500,
      logged
          (log_error msg_stripe_event_process_failed
            (event_attrs ev ++ ("error", text (message e)) ∷ []))
          w,
    )

    abbrev pub verify_failed : String → Error → Env S → Response × Env S
    verify_failed reason e w = (
      http_error 400,
      logged
          (log_error msg_stripe_event_verify_failed
            (("reason", text reason) ∷ ("error", text (message e)) ∷ []))
          w,
    )

    -- After `Status`.
    abbrev pub after_status : Event → Result EventStatus × Env S → Response × Env S
    after_status ev (err e, w) = process_failed ev e w
    after_status ev (ok es, w) = (header 204, logged (duplicate_entry ev es) w)

    -- After `AcceptEvent`.
    abbrev pub after_accept : Event → Result Bool × Env S → Response × Env S
    after_accept ev (err e, w) = process_failed ev e w
    after_accept ev (ok true, w) =
        (header 204, logged (log_info msg_stripe_event_accepted (event_attrs ev)) w)
    after_accept ev (ok false, w) = after_status ev (on_store (st.status ev.id) w)

    abbrev pub marshalled : Event → Result Bytes → Env S → Response × Env S
    marshalled ev (err e) w = process_failed ev e w
    marshalled ev (ok job_payload) w =
        after_accept ev (on_store (st.accept_event ev.id ev.event_type job_payload) w)

    abbrev pub verified : Result Event → Env S → Response × Env S
    verified (err e) w = verify_failed "verify_event" e w
    verified (ok ev) w = marshalled ev (marshal (job_of ev)) w

    abbrev pub body_read : String → Body → Env S → Response × Env S
    body_read signature too_large w = (
      http_error 413,
      logged (log_error msg_stripe_body_too_large (("max_bytes", num max_stripe_webhook_body) ∷ []))
          w,
    )
    body_read signature (unreadable e) w = verify_failed "read_body" e w
    body_read signature (read body) w = verified (construct_event body signature secret) w

    -- `handleStripeWebhook`
    unfoldable pub handle_stripe_webhook : Request → Env S → Response × Env S
    handle_stripe_webhook r w = body_read r.signature (r.body max_stripe_webhook_body) w
