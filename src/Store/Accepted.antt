-- ===== src/Store/Accepted.antt =====
-- The tables after the transaction of `AcceptEvent`, or after one that was aborted: their validity and
-- what they keep.
use go_stripe_webhook_k8s.Base.{
  ℕ, ◌+◌, ◌<◌, String, ◌≡◌, refl, inl, inr, Bool, true, false, Option, none, some, List, [], ◌∷◌,
  ◌==◌, string_eq, All, All-append, arith,
}
use go_stripe_webhook_k8s.Go.{Bytes}
use go_stripe_webhook_k8s.Sql.Laws.{row_of-append, IsKeyed-append, or_row}
use go_stripe_webhook_k8s.Store.Schema.{Db, LedgerRecord, OutboxRecord}
use go_stripe_webhook_k8s.Store.Statements.{ledger_row, outbox_row}
use go_stripe_webhook_k8s.Store.Ordered.{Ascending-append}
use go_stripe_webhook_k8s.Store.Valid.{IsValid, OutboxCheck, LedgerCheck}
use go_stripe_webhook_k8s.Store.Evolves.{Evolves, Evolves-Respects, LedgerLe, OutboxLe}
use go_stripe_webhook_k8s.Store.Accept.{accepted, accepted_row, pending_row}

raised :
    (n : ℕ) (rows : List OutboxRecord) → All (OutboxCheck n) rows → All (OutboxCheck (n + 1)) rows
raised n [] h = tt
raised n (r ∷ rows) h = ((h.0.0, omega (arith, h.0.1)), raised n rows h.1)

below :
    (n : ℕ) (rows : List OutboxRecord)
    → All (OutboxCheck n) rows
    → All (λ (q : OutboxRecord). q.id < n) rows
below n [] h = tt
below n (r ∷ rows) h = (h.0.1, below n rows h.1)

pub gap-IsValid : (db : Db) → IsValid db → IsValid (record db { next_id = db.next_id + 1 })
gap-IsValid db v = record {
  ledger_keyed = v.ledger_keyed;
  outbox_keyed = v.outbox_keyed;
  completions_keyed = v.completions_keyed;
  referenced = v.referenced;
  ledger_checked = v.ledger_checked;
  outbox_checked = raised db.next_id db.outbox v.outbox_checked;
  outbox_ordered = v.outbox_ordered;
  completions_checked = v.completions_checked;
}

pub gap-Evolves : (db : Db) → Evolves db (record db { next_id = db.next_id + 1 })
gap-Evolves db =
    let same = Evolves-Respects.preorder.reflexive db in
    record {
      ledger_kept = same.ledger_kept;
      outbox_kept = same.outbox_kept;
      completions_kept = same.completions_kept;
    }

no_row :
    (a : Option LedgerRecord) (b : Option OutboxRecord) (test : Bool) (x : LedgerRecord)
    (y : OutboxRecord)
    → (a ≡ none → b ≡ none)
    → or_row a test x ≡ none
    → or_row b test y ≡ none
no_row none b true x y h e = cc
no_row none b false x y h e = rw (h refl) refl
no_row (some r) b test x y h e = cc

or_row-LedgerLe :
    (o : Option LedgerRecord) (test : Bool) (r : LedgerRecord) → LedgerLe o (or_row o test r)
or_row-LedgerLe none test r = tt
or_row-LedgerLe (some x) test r = refl

or_row-OutboxLe :
    (o : Option OutboxRecord) (test : Bool) (r : OutboxRecord) → OutboxLe o (or_row o test r)
or_row-OutboxLe none test r = tt
or_row-OutboxLe (some x) test r = (refl, refl, λ h. h)

module _ (id event_type : String) (stored : Bytes) (db : Db) where
  pub accepted-IsValid :
      IsValid db → ledger_row id db ≡ none → IsValid (accepted id event_type stored db)
  accepted-IsValid v absent = record {
    ledger_keyed =
        IsKeyed-append (λ (r : LedgerRecord). r.event_id) db.ledger _ absent v.ledger_keyed;
    outbox_keyed =
        IsKeyed-append (λ (r : OutboxRecord). r.event_id) db.outbox _ (v.referenced id absent)
          v.outbox_keyed;
    completions_keyed = v.completions_keyed;
    referenced = λ j.
        rw
          (
            row_of-append (λ (r : LedgerRecord). r.event_id) j db.ledger
                (accepted_row id event_type db),
            row_of-append (λ (r : OutboxRecord). r.event_id) j db.outbox
                (pending_row id event_type stored db),
          )
          (no_row (ledger_row j db) (outbox_row j db) (id == j) _ _ (v.referenced j));
    ledger_checked = All-append LedgerCheck db.ledger _ v.ledger_checked ((inr (inl refl)), tt);
    outbox_checked =
        All-append (OutboxCheck (db.next_id + 1)) db.outbox _
          (raised db.next_id db.outbox v.outbox_checked) ((inl refl, omega arith), tt);
    outbox_ordered =
        Ascending-append db.outbox (pending_row id event_type stored db) v.outbox_ordered
          (below db.next_id db.outbox v.outbox_checked);
    completions_checked = v.completions_checked;
  }

  pub accepted-Evolves : Evolves db (accepted id event_type stored db)
  accepted-Evolves = record {
    ledger_kept = λ j.
        rw
          (row_of-append (λ (r : LedgerRecord). r.event_id) j db.ledger
            (accepted_row id event_type db))
          (or_row-LedgerLe (ledger_row j db) (id == j) _);
    outbox_kept = λ j.
        rw
          (row_of-append (λ (r : OutboxRecord). r.event_id) j db.outbox
            (pending_row id event_type stored db))
          (or_row-OutboxLe (outbox_row j db) (id == j) _);
    completions_kept = (Evolves-Respects.preorder.reflexive db).completions_kept;
  }
