-- ===== src/Store/Machine.antt =====
-- The tables as state machines: one for each completion of an event by a consumer, and one for the
-- outbox row of each event. What the statements of internal/store/postgres.go do, committed one by
-- one in any order, moves along the arrows of the machines.
use mathlib.Core.Option
use go_stripe_webhook_k8s.Base.{
  ℕ, ◌+◌, String, ◌≡◌, refl, sym, subst, Bool, true, false, Option, none, some, ◌==◌, ◌&&◌,
  string_eq, pair_eq, if◌then◌else◌,
}
use go_stripe_webhook_k8s.Go.{Bytes}
use go_stripe_webhook_k8s.Sql.Laws.{or_row}
use go_stripe_webhook_k8s.Store.Schema.{
  Db, CompletionRecord, OutboxRecord, completion_processing, completion_processed,
  completion_failed, outbox_pending, outbox_published,
}
use go_stripe_webhook_k8s.Store.Statements.{
  retry_row, reclaim_row, processed_row, failed_row, outbox_row, set_outbox,
}
use go_stripe_webhook_k8s.Store.Lifecycle.{Phase, absent, processing, processed, failed, phase_of}

-- Any number of arrows, one after the other.
pub data Star {X : Type 0} (Arrow : X → X → Type 0) (x : X) : X → Type 0 where
  stay : Star Arrow x x
  move : {y z : X} → Star Arrow x y → Arrow y z → Star Arrow x z

pub Star-trans :
    {X : Type 0} {Arrow : X → X → Type 0} {x y z : X}
    → Star Arrow x y
    → Star Arrow y z
    → Star Arrow x z
Star-trans p stay = p
Star-trans p (move q a) = move (Star-trans p q) a

-- A completion is claimed; an attempt that stopped half-way is made again, or ends; and one that failed
-- is claimed again. From `processed` no arrow goes on.
pub data Arrow : Phase → Phase → Type 0 where
  claimed : Arrow absent (processing 1)
  retried : (m : ℕ) → Arrow (processing m) (processing (m + 1))
  finished : (m : ℕ) → Arrow (processing m) (processed m)
  stopped : (m : ℕ) (why : String) → Arrow (processing m) (failed m (some why))
  reclaimed : (m : ℕ) (why : Option String) → Arrow (failed m why) (processing (m + 1))

phase-processing :
    (r : CompletionRecord)
    → r.status ≡ completion_processing
    → phase_of (some r) ≡ processing r.attempt_count
phase-processing r e = rw e refl

phase-failed :
    (r : CompletionRecord)
    → r.status ≡ completion_failed
    → phase_of (some r) ≡ failed r.attempt_count r.error
phase-failed r e = rw e refl

-- An UPDATE of one row, by what it does to that row.
pub if-Star :
    (b c : Bool) (r q : CompletionRecord)
    → (c ≡ true → Star Arrow (phase_of (some r)) (phase_of (some q)))
    → Star Arrow (phase_of (some r)) (phase_of (some (if b && c then q else r)))
if-Star true true r q h = h refl
if-Star true false r q h = stay
if-Star false c r q h = stay

pub map-Star :
    (g : CompletionRecord → CompletionRecord)
    → ((r : CompletionRecord) → Star Arrow (phase_of (some r)) (phase_of (some (g r))))
    → (o : Option CompletionRecord) → Star Arrow (phase_of o) (phase_of (Option.map g o))
map-Star g h none = stay
map-Star g h (some r) = h r

pub or_row-Star :
    (o : Option CompletionRecord) (test : Bool) (r : CompletionRecord)
    → phase_of (some r) ≡ processing 1
    → Star Arrow (phase_of o) (phase_of (or_row o test r))
or_row-Star none true r e = subst (Star Arrow absent) (sym e) (move stay claimed)
or_row-Star none false r e = stay
or_row-Star (some x) test r e = stay

pub retried-Star :
    (now : ℕ) (r : CompletionRecord)
    → r.status ≡ completion_processing
    → Star Arrow (phase_of (some r)) (phase_of (some (retry_row now r)))
unfolding retry_row
retried-Star now r e = rw e (move stay (retried r.attempt_count))

pub reclaimed-Star :
    (now : ℕ) (r : CompletionRecord)
    → r.status ≡ completion_failed
    → Star Arrow (phase_of (some r)) (phase_of (some (reclaim_row completion_processing now r)))
unfolding reclaim_row
reclaimed-Star now r e = rw e (move stay (reclaimed r.attempt_count r.error))

pub finished-Star :
    (now : ℕ) (r : CompletionRecord)
    → r.status ≡ completion_processing
    → Star Arrow (phase_of (some r)) (phase_of (some (processed_row completion_processed now r)))
unfolding processed_row
finished-Star now r e = rw e (move stay (finished r.attempt_count))

pub stopped-Star :
    (msg : String) (now : ℕ) (r : CompletionRecord)
    → r.status ≡ completion_processing
    → Star Arrow (phase_of (some r)) (phase_of (some (failed_row completion_failed msg now r)))
unfolding failed_row
stopped-Star msg now r e = rw e (move stay (stopped r.attempt_count msg))

-- How far an event has come on its way to Kafka, with the payload of its job.
pub data Stage : Type 0 where
  unaccepted : Stage
  waiting sent given_up : Bytes → Stage

abbrev pub stage_of : Option OutboxRecord → Stage
stage_of none = unaccepted
stage_of (some r) =
    if r.status == outbox_pending
    then waiting r.payload
    else if r.status == outbox_published
    then sent r.payload
    else given_up r.payload

abbrev pub stage : String → Db → Stage
stage id db = stage_of (outbox_row id db)

-- An event is accepted, and its row is published.
pub data EventArrow : Stage → Stage → Type 0 where
  accept : (payload : Bytes) → EventArrow unaccepted (waiting payload)
  publish : (payload : Bytes) → EventArrow (waiting payload) (sent payload)

pub published_if :
    (b c : Bool) (now : ℕ) (r : OutboxRecord)
    → (c ≡ true → r.status ≡ outbox_pending)
    → Star EventArrow
        (stage_of (some r))
        (stage_of (some (if b && c then set_outbox outbox_published now r else r)))
published_if true true now r h = rw (h refl) (move stay (publish r.payload))
published_if true false now r h = stay
published_if false c now r h = stay

pub map-stage :
    (g : OutboxRecord → OutboxRecord)
    → ((r : OutboxRecord) → Star EventArrow (stage_of (some r)) (stage_of (some (g r))))
    → (o : Option OutboxRecord) → Star EventArrow (stage_of o) (stage_of (Option.map g o))
map-stage g h none = stay
map-stage g h (some r) = h r

pub or_row-stage :
    (o : Option OutboxRecord) (test : Bool) (r : OutboxRecord)
    → stage_of (some r) ≡ waiting r.payload
    → Star EventArrow (stage_of o) (stage_of (or_row o test r))
or_row-stage none true r e = rw e (move stay (accept r.payload))
or_row-stage none false r e = stay
or_row-stage (some x) test r e = stay
