-- ===== src/Publisher/Pending.antt =====
-- The pending rows of an outbox whose rows are in the order of their ids, and what marking the first
-- of them leaves (`NextPendingOutbox` and `MarkOutboxPublished` of internal/store/postgres.go).
use go_stripe_webhook_k8s.Base.{
  ◌&&◌, subst, ◌∙◌, inr, inl, Bool-cases, ltb, ℕ, ◌<◌, String, ◌≡◌, refl, sym, Bool, true, false,
  Bool-cases, ltb, inl, inr, ap, Option, none, some, List, [], ◌∷◌, ◌==◌, string_eq, ==-self, All,
  Eq, if◌then◌else◌, arith,
}
use go_stripe_webhook_k8s.Sql.{row_of, update_where, IsKeyed}
use go_stripe_webhook_k8s.Store.Ordered.{Ascending, marked}
use go_stripe_webhook_k8s.Store.Schema.{OutboxRecord, outbox_pending, outbox_published}
use go_stripe_webhook_k8s.Store.Statements.{oldest, set_outbox}

abbrev pub pending_rows : List OutboxRecord → List OutboxRecord
pending_rows [] = []
pending_rows (r ∷ rows) =
    let rest = pending_rows rows in if r.status == outbox_pending then r ∷ rest else rest

abbrev pub first : List OutboxRecord → Option OutboxRecord
first [] = none
first (r ∷ rows) = some r

-- The row that is chosen of `r` and of the oldest of the later rows.
abbrev older : String → OutboxRecord → Option OutboxRecord → Option OutboxRecord
older state r o =
    if r.status == state
    then elim o [ none ↦ some r | some best ↦ if ltb best.id r.id then some best else some r ]
    else o

oldest-after :
    (a : ℕ) (state : String) (rows : List OutboxRecord) (best : OutboxRecord)
    → All (λ (q : OutboxRecord). a < q.id) rows
    → oldest state rows ≡ some best
    → a < best.id
unfolding oldest
oldest-after a state [] best h found = cc
oldest-after a state (r ∷ rows) best h found =
    at (oldest state rows) (λ q e. oldest-after a state rows q h.1 e) found
  where
    at :
        (o : Option OutboxRecord)
        → ((q : OutboxRecord) → o ≡ some q → a < q.id)
        → older state r o ≡ some best
        → a < best.id
    at none later e = ground arith
    at (some q) later e = let later_q = later q refl in ground arith

pub oldest-Ascending :
    (rows : List OutboxRecord)
    → Ascending rows
    → oldest outbox_pending rows ≡ first (pending_rows rows)
unfolding oldest
oldest-Ascending [] h = refl
oldest-Ascending (r ∷ rows) h =
    at (oldest outbox_pending rows) (oldest-Ascending rows h.1)
      (λ q e. oldest-after r.id outbox_pending rows q h.0 e)
  where
    at :
        (o : Option OutboxRecord)
        → o ≡ first (pending_rows rows)
        → ((q : OutboxRecord) → o ≡ some q → r.id < q.id)
        → older outbox_pending r o ≡ first (pending_rows (r ∷ rows))
    at none same later = ground arith
    at (some q) same later = let later_q = later q refl in ground arith

-- An UPDATE of a key that no row has changes nothing.
update_where-absent :
    {R : Type 0} {K : Type 0} ⦃e : Eq K⦄ (key : R → K) (k : K) (test : R → Bool) (f : R → R)
    (rows : List R)
    → row_of key k rows ≡ none
    → update_where key k test f rows ≡ rows
unfolding row_of update_where
update_where-absent key k test f [] absent = refl
update_where-absent key k test f (r ∷ rows) absent =
    ground (arith, update_where-absent key k test f rows)

head_marked :
    (b : Bool) (now : ℕ) (r : OutboxRecord) (rows : List OutboxRecord)
    → b ≡ true
    → pending_rows ((if b then set_outbox outbox_published now r else r) ∷ rows) ≡ pending_rows rows
head_marked true now r rows e = refl
head_marked false now r rows e = cc

head_kept :
    (b : Bool) (now : ℕ) (r : OutboxRecord) (rows : List OutboxRecord)
    → b ≡ false
    → pending_rows ((if b then set_outbox outbox_published now r else r) ∷ rows)
      ≡ pending_rows (r ∷ rows)
head_kept true now r rows e = cc
head_kept false now r rows e = refl

-- Marking the first pending row leaves the other ones.
pub pending_rows-marked :
    (now : ℕ) (best : OutboxRecord) (rest rows : List OutboxRecord)
    → IsKeyed (λ (r : OutboxRecord). r.event_id) rows
    → pending_rows rows ≡ best ∷ rest
    → pending_rows (marked now best.event_id rows) ≡ rest
unfolding update_where
pending_rows-marked now best rest [] keyed found = cc
pending_rows-marked now best rest (r ∷ rows) keyed found =
    elim (Bool-cases (r.status == outbox_pending)) [
      | inl chosen ↦
          let same : r ≡ best = ground arith in
          let after : pending_rows rows ≡ rest = ground arith in
          let hit : (r.event_id == best.event_id && r.status == outbox_pending) ≡ true =
            rw (sym same, ==-self r.event_id) chosen in
          head_marked (r.event_id == best.event_id && r.status == outbox_pending) now r
            (marked now best.event_id rows) hit
          ∙ (ap pending_rows (
                update_where-absent (λ (q : OutboxRecord). q.event_id) best.event_id
                  (λ q. q.status == outbox_pending) (set_outbox outbox_published now) rows
                  (subst
                    (λ (q : OutboxRecord).
                      row_of (λ (x : OutboxRecord). x.event_id) q.event_id rows ≡ none)
                    same keyed.0))
              ∙ after)
      | inr other ↦
          let before : pending_rows rows ≡ best ∷ rest = ground arith in
          head_kept (r.event_id == best.event_id && r.status == outbox_pending) now r
            (marked now best.event_id rows) (ground arith)
          ∙ skip (marked now best.event_id rows) other
              (pending_rows-marked now best rest rows keyed.1 before)
    ]
  where
    skip :
        (xs : List OutboxRecord)
        → (r.status == outbox_pending) ≡ false
        → pending_rows xs ≡ rest
        → pending_rows (r ∷ xs) ≡ rest
    skip xs other e = ground arith
