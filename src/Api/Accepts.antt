-- ===== src/Api/Accepts.antt =====
-- What a response of the webhook says of the database.
use go_stripe_webhook_k8s.Base.{
  String, ◌≡◌, refl, sym, subst, Bool, true, false, Option, none, string_eq,
}
use go_stripe_webhook_k8s.Go.{Bytes, Result, ok, err}
use go_stripe_webhook_k8s.Engine.{Job}
use go_stripe_webhook_k8s.Store.Schema.{Db, EventStatus}
use go_stripe_webhook_k8s.Store.Statements.{ledger_row}
use go_stripe_webhook_k8s.Store.Driver.{Session, arrive}
use go_stripe_webhook_k8s.Store.Interface
use go_stripe_webhook_k8s.Store.Postgres
use go_stripe_webhook_k8s.Store.Rely.{Rely}
use go_stripe_webhook_k8s.Store.Guarantee.{status-Keeps}
use go_stripe_webhook_k8s.Store.Evolves.{Evolves, Evolves-Respects}
use go_stripe_webhook_k8s.Store.Sound.{Sound, arrive-Sound}
use go_stripe_webhook_k8s.Store.Accept.{
  AcceptOutcome, accept_event-outcome, accept_event-closed, accept_event-same_script,
}
use go_stripe_webhook_k8s.Store.Recorded.{
  IsRecorded, recorded, LedgerLe-IsRecorded, accepted-IsRecorded,
}
use go_stripe_webhook_k8s.Api.{
  Body, read, too_large, unreadable, Request, Event, header, EventStore, event_store, Env, job_of,
  on_store, after_status, after_accept, marshalled, verified, body_read, handle_stripe_webhook,
  max_stripe_webhook_body,
}

-- `*store.Postgres` as the store of the API.
abbrev pub postgres : (Bytes → Option Bytes) → EventStore Session
postgres jsonb = event_store (Interface.postgres jsonb)

module _ (jsonb : Bytes → Option Bytes) (construct_event : Bytes → String → String → Result Event)
    (marshal : Job → Result Bytes) (secret : String) where
  status-IsRecorded :
      (ev : Event) (x : Result EventStatus × Env Session)
      → IsRecorded (ledger_row ev.id x.1.store.db)
      → IsRecorded (
          ledger_row ev.id
            (after_status (postgres jsonb) construct_event marshal secret ev x).1.store.db)
  status-IsRecorded ev (ok es, w) h = h
  status-IsRecorded ev (err e, w) h = h

  accept-IsRecorded :
      (ev : Event) (payload : Bytes) (db : Db) (x : Result Bool × Env Session)
      → AcceptOutcome jsonb ev.id ev.event_type payload x.0 db x.1.store.db
      → x.1.store.tx ≡ none
      → Rely Evolves x.1.store.script
      → (after_accept (postgres jsonb) construct_event marshal secret ev x).0 ≡ header 204
      → IsRecorded (
          ledger_row ev.id
            (after_accept (postgres jsonb) construct_event marshal secret ev x).1.store.db)
  accept-IsRecorded ev payload db (err e, w) outcome closed rely h = cc
  accept-IsRecorded ev payload db (ok true, w) (stored, stores, absent, both) closed rely h =
      subst (λ d. IsRecorded (ledger_row ev.id d)) (sym both)
        (accepted-IsRecorded ev.id ev.event_type stored db)
  accept-IsRecorded ev payload db (ok false, w) (present, same) closed rely h =
      status-IsRecorded ev (on_store (Postgres.status ev.id) w) (
        LedgerLe-IsRecorded _ _
          (((status-Keeps Evolves-Respects.preorder ev.id).at w.store closed
              rely).related.ledger_kept
            ev.id)
          (subst (λ d. IsRecorded (ledger_row ev.id d)) (sym same) (recorded _ present)))

  marshalled-IsRecorded :
      (ev : Event) (r : Result Bytes) (w : Env Session)
      → Sound w.store
      → (marshalled (postgres jsonb) construct_event marshal secret ev r w).0 ≡ header 204
      → IsRecorded (
          ledger_row ev.id
            (marshalled (postgres jsonb) construct_event marshal secret ev r w).1.store.db)
  marshalled-IsRecorded ev (err e) w sound h = cc
  marshalled-IsRecorded ev (ok payload) w sound h =
      accept-IsRecorded ev payload (arrive w.store).db
        (on_store (Postgres.accept_event jsonb ev.id ev.event_type payload) w)
        (accept_event-outcome jsonb ev.id ev.event_type payload w.store sound.closed
          ((arrive-Sound w.store sound).valid.referenced ev.id))
        (accept_event-closed jsonb ev.id ev.event_type payload w.store sound.closed)
        (subst (Rely Evolves)
          (sym (accept_event-same_script jsonb ev.id ev.event_type payload w.store))
          sound.rely_evolves)
        h

  verified-IsRecorded :
      (r : Result Event) (w : Env Session)
      → Sound w.store
      → (verified (postgres jsonb) construct_event marshal secret r w).0 ≡ header 204
      → (ev : Event) × (r ≡ ok ev)
        × IsRecorded (
            ledger_row ev.id
              (verified (postgres jsonb) construct_event marshal secret r w).1.store.db)
  verified-IsRecorded (err e) w sound h = cc
  verified-IsRecorded (ok ev) w sound h =
      (ev, refl, marshalled-IsRecorded ev (marshal (job_of ev)) w sound h)

  body-IsRecorded :
      (signature : String) (b : Body) (w : Env Session)
      → Sound w.store
      → (body_read (postgres jsonb) construct_event marshal secret signature b w).0 ≡ header 204
      → (body : Bytes) × (ev : Event) × (b ≡ read body)
        × (construct_event body signature secret ≡ ok ev)
        × IsRecorded (
            ledger_row ev.id
              (body_read (postgres jsonb) construct_event marshal secret signature b w).1.store.db)
  body-IsRecorded signature too_large w sound h = cc
  body-IsRecorded signature (unreadable e) w sound h = cc
  body-IsRecorded signature (read body) w sound h =
      let (ev, valid, there) =
        verified-IsRecorded (construct_event body signature secret) w sound h in
      (body, ev, refl, valid, there)

  -- A webhook that is answered by 204 had a body within the limit whose signature is right, and its
  -- event is in the ledger: on any valid database, if the other clients keep it valid and undo
  -- nothing, and however each call ends.
  pub handle_stripe_webhook-IsRecorded :
      (r : Request) (w : Env Session)
      → Sound w.store
      → (handle_stripe_webhook (postgres jsonb) construct_event marshal secret r w).0 ≡ header 204
      → (body : Bytes) × (ev : Event) × (r.body max_stripe_webhook_body ≡ read body)
        × (construct_event body r.signature secret ≡ ok ev)
        × IsRecorded (
            ledger_row ev.id
              (handle_stripe_webhook
                (postgres jsonb)
                construct_event
                marshal
                secret
                r
                w).1.store.db)
  unfolding handle_stripe_webhook
  handle_stripe_webhook-IsRecorded r w sound h =
      body-IsRecorded r.signature (r.body max_stripe_webhook_body) w sound h
