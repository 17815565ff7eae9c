-- ===== src/Monad.antt =====
-- Code that returns `(value, error)` and changes a state: the early return on an error is the bind.
use go_stripe_webhook_k8s.Base.{String}
use go_stripe_webhook_k8s.Go.{Error, wrapped, Result, ok, err}

-- A computation over the state `S`.
abbrev pub M : Type 0 → Type 0 → Type 0
M S A = S → Result A × S

unfoldable pub pure : {S A : Type 0} → A → M S A
pure a s = (ok a, s)

unfoldable pub throw : {S A : Type 0} → Error → M S A
throw e s = (err e, s)

abbrev pub continue : {S A B : Type 0} → (A → M S B) → Result A × S → Result B × S
continue f (ok a, s) = f a s
continue f (err e, s) = (err e, s)

-- `x, err := m(); if err != nil { return err }`, and the rest.
infixl 5 ◌>>=◌ ◌>>◌
unfoldable pub ◌>>=◌ : {S A B : Type 0} → M S A → (A → M S B) → M S B
unfolding pure throw
◌>>=◌ m f s = continue f (m s)

abbrev pub ◌>>◌ : {S A B : Type 0} → M S A → M S B → M S B
m >> k = m >>= λ _. k

abbrev pub wrap_error : {S A : Type 0} → String → Result A × S → Result A × S
wrap_error m (ok a, s) = (ok a, s)
wrap_error m (err e, s) = (err (wrapped m e), s)

-- `fmt.Errorf("m: %w", err)` on the error of a call.
unfoldable pub wrap : {S A : Type 0} → String → M S A → M S A
wrap text m s = wrap_error text (m s)

-- A call whose error is handled where it is made.
unfoldable pub try : {S A : Type 0} → M S A → M S (Result A)
try m s = let (r, s') = m s in (ok r, s')

-- `defer f()` around the rest of a function.
unfoldable pub deferred : {S A : Type 0} → (S → S) → M S A → M S A
deferred f m s = let (r, s') = m s in (r, f s')

-- Opens the monad.
unfoldable pub monad : Unit {0}
unfolding ◌>>=◌ wrap try deferred
monad = tt
