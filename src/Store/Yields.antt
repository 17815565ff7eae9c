-- ===== src/Store/Yields.antt =====
-- What a method of the store (internal/store/postgres.go) answers on a valid database, if the other
-- clients keep it valid.
use go_stripe_webhook_k8s.Base.{
  String, ◌≡◌, refl, Bool, true, false, none, string_eq, pair_eq, if◌then◌else◌,
}
use go_stripe_webhook_k8s.Go.{Error, Result, ok, err}
use go_stripe_webhook_k8s.Monad.{M, pure, throw, ◌>>=◌, continue, wrap, wrap_error}
use go_stripe_webhook_k8s.Store.Schema.{Db}
use go_stripe_webhook_k8s.Store.Statements.{Statement}
use go_stripe_webhook_k8s.Store.Driver.{
  Session, Reply, done, refused, lost, reply_of, arrive, settle, run,
}
use go_stripe_webhook_k8s.Store.Rely.{Rely, Left, Keeps, Left-Rely}
use go_stripe_webhook_k8s.Store.Valid.{IsValid, KeepsValid}

-- The value of an answer without error.
abbrev pub Post : {A : Type 0} → (A → Type 0) → Result A → Type 0
Post P (ok a) = P a
Post P (err e) = Unit

module _ {A : Type 0} (P : A → Type 0) where
  pub record Yields (m : M Session A) : Type 0 where
    pub at : (s : Session) → s.tx ≡ none → IsValid s.db → Rely KeepsValid s.script → Post P (m s).0

  wrapped-Post :
      (text : String) (x : Result A × Session) → Post P x.0 → Post P (wrap_error text x).0
  wrapped-Post text (ok a, s) h = h
  wrapped-Post text (err e, s) h = tt

module _ {A : Type 0} {P : A → Type 0} where
  pub pure-Yields : (a : A) → P a → Yields P (pure a)
  unfolding pure
  pure-Yields a p = record { at = λ s closed valid rely. p }

  pub throw-Yields : (e : Error) → Yields P (throw e)
  unfolding throw
  throw-Yields e = record { at = λ s closed valid rely. tt }

  pub wrap-Yields : (text : String) (m : M Session A) → Yields P m → Yields P (wrap text m)
  unfolding wrap
  wrap-Yields text m h = record {
    at = λ s closed valid rely. wrapped-Post P text (m s) (h.at s closed valid rely);
  }

  pub if-Yields :
      (b : Bool) (m k : M Session A) → Yields P m → Yields P k → Yields P (if b then m else k)
  if-Yields true m k h q = h
  if-Yields false m k h q = q

  settled-Post :
      (reply : Reply) (r : Result (A × Db)) (s : Session)
      → ((a : A) (db : Db) → r ≡ ok (a, db) → P a)
      → Post P (settle reply r s).0
  settled-Post done (ok (a, db)) s h = h a db refl
  settled-Post done (err e) s h = tt
  settled-Post (refused m) r s h = tt
  settled-Post (lost m) (ok (a, db)) s h = tt
  settled-Post (lost m) (err e) s h = tt

  -- A statement that answers so on all valid tables.
  pub run-Yields :
      (st : Statement A)
      → ((db : Db) → IsValid db → (a : A) (db' : Db) → st db ≡ ok (a, db') → P a)
      → Yields P (run st)
  unfolding run
  run-Yields st h = record {
    at = λ s closed valid rely.
        settled-Post (reply_of s) (st (arrive s).db) (arrive s)
          (h (arrive s).db (rely s.used s.db valid));
  }

any-Post : {A : Type 0} (r : Result A) → Post (λ a. Unit) r
any-Post (ok a) = tt
any-Post (err e) = tt

-- Nothing is asked of the value.
pub anything : {A : Type 0} (m : M Session A) → Yields (λ a. Unit) m
anything m = record { at = λ s closed valid rely. any-Post (m s).0 }

module _ {A B : Type 0} {P : A → Type 0} {Q : B → Type 0} where
  continued-Post :
      (f : A → M Session B) (s : Session) (x : Result A × Session)
      → IsValid s.db
      → Left KeepsValid s x.1
      → Rely KeepsValid s.script
      → Post P x.0
      → ((a : A) → P a → Yields Q (f a))
      → Post Q (continue f x).0
  continued-Post f s (ok a, t) valid left rely p later =
      (later a p).at t left.closed (left.related valid) (Left-Rely left rely)
  continued-Post f s (err e, t) valid left rely p later = tt

  pub >>=-Yields :
      (m : M Session A) (f : A → M Session B)
      → Keeps KeepsValid m
      → Yields P m
      → ((a : A) → P a → Yields Q (f a))
      → Yields Q (m >>= f)
  unfolding ◌>>=◌
  >>=-Yields m f keeps h later = record {
    at = λ s closed valid rely.
        continued-Post f s (m s) valid (keeps.at s closed rely) rely (h.at s closed valid rely)
          later;
  }
