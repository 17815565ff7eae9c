-- ===== src/Store/Open.antt =====
-- `NewPostgres` (internal/store/postgres.go), over the state `D` of what lies outside of the process
-- and the type `S` of connection pools. database/sql is a parameter.
use go_stripe_webhook_k8s.Base.{String}
use go_stripe_webhook_k8s.Go.{wrapped, Result, ok, err}
use go_stripe_webhook_k8s.Monad.{M}

-- `sql.Open("pgx", dsn)`, `db.Ping()` and `db.Close()`.
pub record Dialer (D S : Type 0) : Type 0 where
  pub connect : String → M D S
  pub ping : S → M D (Unit {0})
  pub close : S → D → D

module _ {D S : Type 0} (dialer : Dialer D S) where
  abbrev pub pinged : S → Result (Unit {0}) × D → Result S × D
  pinged s (ok u, d) = (ok s, d)
  pinged s (err e, d) = (err (wrapped "store: ping postgres" e), dialer.close s d)

  abbrev pub opened : Result S × D → Result S × D
  opened (ok s, d) = pinged s (dialer.ping s d)
  opened (err e, d) = (err (wrapped "store: open postgres" e), d)

  -- `NewPostgres`
  unfoldable pub new_postgres : String → M D S
  new_postgres dsn d = opened (dialer.connect dsn d)
