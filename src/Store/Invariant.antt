-- ===== src/Store/Invariant.antt =====
-- What holds of the tables of internal/store/postgres.go in every interleaving of the processes.
use go_stripe_webhook_k8s.Base.{◌≡◌, none}
use go_stripe_webhook_k8s.Store.Schema.{Db}
use go_stripe_webhook_k8s.Store.Driver.{Session}
use go_stripe_webhook_k8s.Store.Rely.{Rely}
use go_stripe_webhook_k8s.Store.Valid.{IsValid, KeepsValid, KeepsValid-Respects}
use go_stripe_webhook_k8s.Store.Evolves.{Evolves, Evolves-Respects}
use go_stripe_webhook_k8s.Store.Accepted.{
  accepted-IsValid, accepted-Evolves, gap-IsValid, gap-Evolves,
}
use go_stripe_webhook_k8s.Store.Sound.{Sound}
use go_stripe_webhook_k8s.Store.Reach.{Reach, Contains, Reach-related}

KeepsValid-Contains : Contains KeepsValid
KeepsValid-Contains = record {
  respects = KeepsValid-Respects;
  accepts = λ id event_type stored a absent v. accepted-IsValid id event_type stored a v absent;
  skips = gap-IsValid;
  ticks = λ t a v. record {
    ledger_keyed = v.ledger_keyed;
    outbox_keyed = v.outbox_keyed;
    completions_keyed = v.completions_keyed;
    referenced = v.referenced;
    ledger_checked = v.ledger_checked;
    outbox_checked = v.outbox_checked;
    outbox_ordered = v.outbox_ordered;
    completions_checked = v.completions_checked;
  };
}

Evolves-Contains : Contains Evolves
Evolves-Contains = record {
  respects = Evolves-Respects;
  accepts = λ id event_type stored a absent. accepted-Evolves id event_type stored a;
  skips = gap-Evolves;
  ticks = λ t a.
      let same = Evolves-Respects.preorder.reflexive a in
      record {
        ledger_kept = same.ledger_kept;
        outbox_kept = same.outbox_kept;
        completions_kept = same.completions_kept;
      };
}

-- Tables that the processes reach from valid ones, in any order of their steps, are valid, and nothing
-- that was final is undone.
pub Reach-IsValid : {a b : Db} → Reach a b → IsValid a → IsValid b × Evolves a b
Reach-IsValid reached valid =
    (Reach-related KeepsValid-Contains reached valid, Reach-related Evolves-Contains reached)

-- A process among such processes has a sound session.
pub Reach-Sound : (s : Session) → s.tx ≡ none → IsValid s.db → Rely Reach s.script → Sound s
Reach-Sound s closed valid rely = record {
  closed = closed;
  valid = valid;
  rely_valid = λ n db. Reach-related KeepsValid-Contains (rely n db);
  rely_evolves = λ n db. Reach-related Evolves-Contains (rely n db);
}
