-- ===== src/Store/Rely.antt =====
-- Relations of the tables before and after a method of the store, whatever the other clients do between
-- its calls and however each call ends.
use go_stripe_webhook_k8s.Base.{
  arith, some, none, Option, ◌<◌, ==-iff, string_eq, ℕ, Bool, true, false, if◌then◌else◌, String,
  ◌≡◌, refl, sym, subst, ◌∙◌, none,
}
use go_stripe_webhook_k8s.Go.{Error, Result, ok, err}
use go_stripe_webhook_k8s.Monad.{M, pure, throw, ◌>>=◌, continue, wrap, wrap_error, try}
use go_stripe_webhook_k8s.Store.Schema.{Db, CompletionRecord, max_int}
use go_stripe_webhook_k8s.Store.Statements.{
  Statement, completion_row, set_completion, raise_found, raise_attempts,
}
use go_stripe_webhook_k8s.Store.Driver.{
  Session, Call, Reply, done, refused, lost, reply_of, arrive, settle, answer, run, rows_affected,
  ping_db, count_call,
}

pub record IsPreorder (R : Db → Db → Type 0) : Type 0 where
  pub reflexive : (a : Db) → R a a
  pub transitive : (a b c : Db) → R a b → R b c → R a c

module _ (R : Db → Db → Type 0) where
  -- The other clients respect `R`.
  abbrev pub Rely : (ℕ → Call) → Type 0
  Rely script = (n : ℕ) (db : Db) → R db ((script n).interfere db)

  abbrev pub Ends : {A : Type 0} → Db → Result (A × Db) → Type 0
  Ends db (ok (a, db')) = R db db'
  Ends db (err e) = Unit

  -- The statement respects `R`.
  abbrev pub Guarantees : {A : Type 0} → Statement A → Type 0
  Guarantees st = (db : Db) → Ends db (st db)

  -- The state after a method that was called outside of a transaction.
  pub record Left (s t : Session) : Type 0 where
    pub related : R s.db t.db
    pub closed : t.tx ≡ none
    pub same_script : t.script ≡ s.script

  pub record Keeps {A : Type 0} (m : M Session A) : Type 0 where
    pub at : (s : Session) → s.tx ≡ none → Rely s.script → Left s (m s).1

-- The other clients go on as before.
pub Left-Rely :
    {R : Db → Db → Type 0} {s t : Session} → Left R s t → Rely R s.script → Rely R t.script
Left-Rely {R} left rely = subst (Rely R) (sym left.same_script) rely

module _ {R : Db → Db → Type 0} (p : IsPreorder R) where
  pub Left-trans : {s t u : Session} → Left R s t → Left R t u → Left R s u
  Left-trans {s} {t} {u} a b = record {
    related = p.transitive s.db t.db u.db a.related b.related;
    closed = b.closed;
    same_script = b.same_script ∙ a.same_script;
  }

  -- One method more.
  pub Left-then :
      {A : Type 0} {s t : Session} (m : M Session A)
      → Keeps R m
      → Rely R s.script
      → Left R s t
      → Left R s (m t).1
  Left-then {t = t} m keeps rely left =
      Left-trans left (keeps.at t left.closed (Left-Rely left rely))

  -- A step that leaves the tables alone.
  pub Left-refl :
      (s t : Session) → s.tx ≡ none → t.db ≡ s.db → t.tx ≡ s.tx → t.script ≡ s.script → Left R s t
  Left-refl s t closed same_db same_tx same_script = record {
    related = subst (λ db. R s.db db) (sym same_db) (p.reflexive s.db);
    closed = same_tx ∙ closed;
    same_script = same_script;
  }

  pub pure-Keeps : {A : Type 0} (a : A) → Keeps R (pure a)
  unfolding pure
  pure-Keeps a = record { at = λ s closed rely. Left-refl s s closed refl refl refl }

  pub throw-Keeps : (A : Type 0) (e : Error) → Keeps R (throw {A = A} e)
  unfolding throw
  throw-Keeps A e = record { at = λ s closed rely. Left-refl s s closed refl refl refl }

  continue-Left :
      {A B : Type 0} (f : A → M Session B) (s : Session) (r : Result A × Session)
      → ((a : A) → Keeps R (f a))
      → Rely R s.script
      → Left R s r.1
      → Left R s (continue f r).1
  continue-Left f s (ok a, t) keeps rely left =
      Left-trans left ((keeps a).at t left.closed (Left-Rely left rely))
  continue-Left f s (err e, t) keeps rely left = left

  pub >>=-Keeps :
      {A B : Type 0} (m : M Session A) (f : A → M Session B)
      → Keeps R m
      → ((a : A) → Keeps R (f a))
      → Keeps R (m >>= f)
  unfolding ◌>>=◌
  >>=-Keeps m f first later = record {
    at = λ s closed rely. continue-Left f s (m s) later rely (first.at s closed rely);
  }

  wrap_error-Left :
      {A : Type 0} (text : String) (s : Session) (r : Result A × Session)
      → Left R s r.1
      → Left R s (wrap_error text r).1
  wrap_error-Left text s (ok a, t) left = left
  wrap_error-Left text s (err e, t) left = left

  pub wrap-Keeps :
      {A : Type 0} (text : String) (m : M Session A) → Keeps R m → Keeps R (wrap text m)
  unfolding wrap
  wrap-Keeps text m keeps = record {
    at = λ s closed rely. wrap_error-Left text s (m s) (keeps.at s closed rely);
  }

  pub try-Keeps : {A : Type 0} (m : M Session A) → Keeps R m → Keeps R (try m)
  unfolding try
  try-Keeps m keeps = record { at = keeps.at }

  pub arrive-Left : (s : Session) → s.tx ≡ none → Rely R s.script → Left R s (arrive s)
  arrive-Left s closed rely = record {
    related = rely s.used s.db;
    closed = closed;
    same_script = refl;
  }

  settle-Left :
      {A : Type 0} (reply : Reply) (r : Result (A × Db)) (s : Session)
      → s.tx ≡ none
      → Ends R s.db r
      → Left R s (settle reply r s).1
  settle-Left done (ok (a, db)) s closed ends = record {
    related = ends;
    closed = closed;
    same_script = refl;
  }
  settle-Left done (err e) s closed ends = Left-refl s s closed refl refl refl
  settle-Left (refused m) r s closed ends = Left-refl s s closed refl refl refl
  settle-Left (lost m) (ok (a, db)) s closed ends = record {
    related = ends;
    closed = closed;
    same_script = refl;
  }
  settle-Left (lost m) (err e) s closed ends = Left-refl s s closed refl refl refl

  -- A call that does not touch the tables, after what it finds.
  pub answer-Left :
      {A : Type 0} (reply : Reply) (a : A) (s t : Session)
      → Left R s t
      → Left R s (answer reply a t).1
  answer-Left done a s t left = left
  answer-Left (refused m) a s t left = left
  answer-Left (lost m) a s t left = left

  pub run-Keeps : {A : Type 0} (st : Statement A) → Guarantees R st → Keeps R (run st)
  unfolding run
  run-Keeps st guarantees = record {
    at = λ s closed rely.
        Left-trans (arrive-Left s closed rely) (
          settle-Left (reply_of s) (st (arrive s).db) (arrive s) closed (guarantees (arrive s).db));
  }

  pub rows_affected-Keeps : (n : ℕ) → Keeps R (rows_affected n)
  unfolding rows_affected
  rows_affected-Keeps n = record {
    at = λ s closed rely.
        answer-Left (reply_of s) n s (count_call s)
          (Left-refl s (count_call s) closed refl refl refl);
  }

  pub ping_db-Keeps : Keeps R ping_db
  unfolding ping_db
  ping_db-Keeps = record {
    at = λ s closed rely. answer-Left (reply_of s) tt s (arrive s) (arrive-Left s closed rely);
  }

  -- A branch keeps what both of its sides keep.
  pub if-Keeps :
      {A : Type 0} (b : Bool) (m k : M Session A)
      → Keeps R m
      → Keeps R k
      → Keeps R (if b then m else k)
  if-Keeps true m k keeps other = keeps
  if-Keeps false m k keeps other = other

-- What an UPDATE … RETURNING attempt_count does, if it does anything.
pub raise_attempts-Ends :
    (R : Db → Db → Type 0) (id consumer old : String) (f : ℕ → CompletionRecord → CompletionRecord)
    (db : Db)
    → ((r : CompletionRecord)
        → completion_row id consumer db ≡ some r
        → r.status ≡ old
        → r.attempt_count < max_int
        → R db (set_completion id consumer old (f db.now) db))
    → Ends R db (raise_attempts id consumer old f db)
unfolding raise_attempts
raise_attempts-Ends R id consumer old f db effect = found (completion_row id consumer db) refl
  where
    found :
        (o : Option CompletionRecord)
        → completion_row id consumer db ≡ o
        → Ends R db (raise_found id consumer old f db o)
    found none e = tt
    found (some r) e = ground (arith, effect r e, ==-iff r.status old)

pub ruleset keeps_rules = (
  pure-Keeps, throw-Keeps, >>=-Keeps, wrap-Keeps, try-Keeps, run-Keeps, rows_affected-Keeps,
  ping_db-Keeps, if-Keeps,
)
