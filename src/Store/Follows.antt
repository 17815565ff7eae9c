-- ===== src/Store/Follows.antt =====
-- Every interleaving of the committed steps of internal/store/postgres.go, seen as the state machines
-- of the completions and of the outbox rows.

use go_stripe_webhook_k8s.Base.{String, ◌≡◌, refl, some, ◌==◌, string_eq, pair_eq, ==-iff}
use go_stripe_webhook_k8s.Go.{Bytes}
use go_stripe_webhook_k8s.Sql.Laws.{row_of-insert_new, row_of-update_where, row_of-append}
use go_stripe_webhook_k8s.Store.Schema.{
  Db, CompletionRecord, OutboxRecord, completion_key, completion_processing, completion_processed,
  completion_failed, outbox_pending, outbox_published,
}
use go_stripe_webhook_k8s.Store.Statements.{
  retry_row, reclaim_row, completion_row, outbox_row, insert_completion, retry_completion,
  reclaim_completion, update_processed, update_failed, update_outbox, set_completion, set_outbox,
}
use go_stripe_webhook_k8s.Store.Rely.{IsPreorder, Guarantees, raise_attempts-Ends}
use go_stripe_webhook_k8s.Store.Rows.{
  retry_row-key, reclaim_row-key, processed_row-key, failed_row-key,
}
use go_stripe_webhook_k8s.Store.Accept.{accepted, pending_row}
use go_stripe_webhook_k8s.Store.Lifecycle.{phase, phase_of}
use go_stripe_webhook_k8s.Store.Machine.{
  stage, EventArrow, published_if, map-stage, or_row-stage, Star, stay, Star-trans, Arrow, if-Star,
  map-Star, or_row-Star, retried-Star, reclaimed-Star, finished-Star, stopped-Star,
}
use go_stripe_webhook_k8s.Store.Reach.{Reach, Contains, Reach-related}

-- From `a` to `b` each machine moves along its arrows only.
pub record Follows (a b : Db) : Type 0 where
  pub completions : (id consumer : String) → Star Arrow (phase id consumer a) (phase id consumer b)
  pub events : (id : String) → Star EventArrow (stage id a) (stage id b)

Follows-IsPreorder : IsPreorder Follows
Follows-IsPreorder = record {
  reflexive = λ a. record { completions = λ id consumer. stay; events = λ id. stay };
  transitive = λ a b c p q. record {
    completions = λ id consumer. Star-trans (p.completions id consumer) (q.completions id consumer);
    events = λ id. Star-trans (p.events id) (q.events id);
  };
}

-- An UPDATE of a completion moves its machine, if it moves that of each row of the old status.
set_completion-Follows :
    (id consumer old : String) (f : CompletionRecord → CompletionRecord) (db : Db)
    → ((r : CompletionRecord) → completion_key (f r) ≡ completion_key r)
    → ((r : CompletionRecord)
        → r.status ≡ old
        → Star Arrow (phase_of (some r)) (phase_of (some (f r))))
    → Follows db (set_completion id consumer old f db)
unfolding set_completion
set_completion-Follows id consumer old f db keeps moves = record {
  completions = λ j c.
      rw
        (row_of-update_where completion_key (id, consumer) (λ r. r.status == old) f keeps (j, c)
          db.completions)
        (map-Star _
          (λ r.
            if-Star (completion_key r == (id, consumer)) _ r (f r)
              (λ hit. moves r ((==-iff r.status old).0 hit)))
          (completion_row j c db));
  events = λ j. stay;
}

insert_completion-Follows :
    (id consumer event_type : String)
    → Guarantees Follows (insert_completion id consumer event_type completion_processing)
unfolding insert_completion
insert_completion-Follows id consumer event_type db = record {
  completions = λ j c.
      rw (row_of-insert_new completion_key (j, c)) (or_row-Star (completion_row j c db) _ _ refl);
  events = λ j. stay;
}

retry_completion-Follows :
    (id consumer : String) → Guarantees Follows (retry_completion id consumer completion_processing)
unfolding retry_completion
retry_completion-Follows id consumer db =
    raise_attempts-Ends Follows id consumer completion_processing retry_row db λ r found same below.
      set_completion-Follows id consumer completion_processing (retry_row db.now) db
        (retry_row-key db.now) (retried-Star db.now)

reclaim_completion-Follows :
    (id consumer : String)
    → Guarantees Follows (reclaim_completion completion_processing id consumer completion_failed)
unfolding reclaim_completion
reclaim_completion-Follows id consumer db =
    raise_attempts-Ends Follows id consumer completion_failed (reclaim_row completion_processing) db
      λ r found same below.
        set_completion-Follows id consumer completion_failed
          (reclaim_row completion_processing db.now) db
          (reclaim_row-key completion_processing db.now) (reclaimed-Star db.now)

update_processed-Follows :
    (id consumer : String)
    → Guarantees Follows (update_processed completion_processed id consumer completion_processing)
unfolding update_processed
update_processed-Follows id consumer db =
    set_completion-Follows id consumer completion_processing _ db
      (processed_row-key completion_processed db.now) (finished-Star db.now)

update_failed-Follows :
    (msg id consumer : String)
    → Guarantees Follows (update_failed completion_failed msg id consumer completion_processing)
unfolding update_failed
update_failed-Follows msg id consumer db =
    set_completion-Follows id consumer completion_processing _ db
      (failed_row-key completion_failed msg db.now) (stopped-Star msg db.now)

update_outbox-Follows :
    (id : String) → Guarantees Follows (update_outbox outbox_published id outbox_pending)
unfolding update_outbox
update_outbox-Follows id db = record {
  completions = λ j c. stay;
  events = λ j.
      rw
        (row_of-update_where (λ r. r.event_id) id (λ r. r.status == outbox_pending)
          (set_outbox outbox_published db.now) (λ r. refl) j db.outbox)
        (map-stage _
          (λ r.
            published_if (r.event_id == id) _ db.now r
              (λ hit. (==-iff r.status outbox_pending).0 hit))
          (outbox_row j db));
}

accepted-Follows :
    (id event_type : String) (stored : Bytes) (a : Db) → Follows a (accepted id event_type stored a)
accepted-Follows id event_type stored a = record {
  completions = λ j c. stay;
  events = λ j.
      rw
        (row_of-append (λ (r : OutboxRecord). r.event_id) j a.outbox
          (pending_row id event_type stored a))
        (or_row-stage (outbox_row j a) (id == j) _ refl);
}

Follows-Contains : Contains Follows
Follows-Contains = record {
  respects = record {
    preorder = Follows-IsPreorder;
    inserts = insert_completion-Follows;
    retries = retry_completion-Follows;
    reclaims = reclaim_completion-Follows;
    processes = update_processed-Follows;
    fails = update_failed-Follows;
    publishes = update_outbox-Follows;
  };
  accepts = λ id event_type stored a absent. accepted-Follows id event_type stored a;
  skips = λ a. record { completions = λ j c. stay; events = λ j. stay };
  ticks = λ t a. record { completions = λ j c. stay; events = λ j. stay };
}

-- Whatever the processes and the clock do to the tables, in any order of their committed steps: each
-- completion moves along the arrows of its state machine only, so that a processed one moves no
-- more, and each event moves from unaccepted by waiting to sent only, with one payload.
pub Reach-Follows : {a b : Db} → Reach a b → Follows a b
Reach-Follows reached = Reach-related Follows-Contains reached
