-- ===== src/Store/Driver.antt =====
-- database/sql over Postgres, as the store's methods see it. Each call consults a script: what the
-- other clients of the database have committed since the last call, and how the call ends. A call
-- that is `refused` did nothing; one whose reply is `lost` did its work and returns an error all
-- the same. A transaction works on a copy of the tables, which Commit installs, and no other client
-- acts on them meanwhile.
use go_stripe_webhook_k8s.Base.{ℕ, ◌+◌, String, Option, none, some}
use go_stripe_webhook_k8s.Go.{Error, plain, Result, ok, err}
use go_stripe_webhook_k8s.Monad.{M}
use go_stripe_webhook_k8s.Store.Schema.{Db}
use go_stripe_webhook_k8s.Store.Statements.{Statement}

pub data Reply : Type 0 where
  done : Reply
  refused lost : String → Reply

pub record Call : Type 0 where
  pub interfere : Db → Db
  pub reply : Reply

-- A client's connection pool: the committed tables, the copy of an open transaction, the script
-- and how many of its calls are made.
pub record Session : Type 0 where
  pub db : Db
  pub tx : Option Db
  pub script : ℕ → Call
  pub used : ℕ

abbrev pub reply_of : Session → Reply
reply_of s = (s.script s.used).reply

-- What a call that is not part of a transaction finds.
abbrev pub arrive : Session → Session
arrive s = record s { db = (s.script s.used).interfere s.db; used = s.used + 1 }

abbrev pub count_call : Session → Session
count_call s = record s { used = s.used + 1 }

abbrev pub settle : {A : Type 0} → Reply → Result (A × Db) → Session → Result A × Session
settle done (ok (a, db)) s = (ok a, record s { db = db })
settle done (err e) s = (err e, s)
settle (refused m) r s = (err (plain m), s)
settle (lost m) (ok (a, db)) s = (err (plain m), record s { db = db })
settle (lost m) (err e) s = (err (plain m), s)

-- `db.ExecContext`, and `db.QueryRowContext(…).Scan(…)`.
unfoldable pub run : {A : Type 0} → Statement A → M Session A
run st s = settle (reply_of s) (st (arrive s).db) (arrive s)

-- A call that does not touch the tables, such as `RowsAffected` and `PingContext`.
abbrev pub answer : {A : Type 0} → Reply → A → Session → Result A × Session
answer done a s = (ok a, s)
answer (refused m) a s = (err (plain m), s)
answer (lost m) a s = (err (plain m), s)

-- `res.RowsAffected()`
unfoldable pub rows_affected : ℕ → M Session ℕ
rows_affected n s = answer (reply_of s) n (count_call s)

-- `db.PingContext`
unfoldable pub ping_db : M Session (Unit {0})
ping_db s = answer (reply_of s) tt (arrive s)

abbrev pub open_tx : Result (Unit {0}) × Session → Result (Unit {0}) × Session
open_tx (ok u, s) = (ok u, record s { tx = some s.db })
open_tx (err e, s) = (err e, s)

-- `db.BeginTx`
unfoldable pub begin_tx : M Session (Unit {0})
begin_tx s = open_tx (answer (reply_of s) tt (arrive s))

abbrev pub settle_tx : {A : Type 0} → Reply → Result (A × Db) → Session → Result A × Session
settle_tx done (ok (a, db)) s = (ok a, record s { tx = some db })
settle_tx done (err e) s = (err e, s)
settle_tx (refused m) r s = (err (plain m), s)
settle_tx (lost m) r s = (err (plain m), s)

abbrev pub tx_done : Error
tx_done = plain "sql: transaction has already been committed or rolled back"

-- `tx.ExecContext`
unfoldable pub run_tx : {A : Type 0} → Statement A → M Session A
run_tx st s = elim s.tx [
  | none ↦ (err tx_done, s)
  | some tx ↦ settle_tx (reply_of s) (st tx) (count_call s)
]

-- What a rollback leaves: a sequence does not go back.
abbrev pub abandon : Db → Session → Session
abandon tx s = record s { db = record s.db { next_id = tx.next_id }; tx = none }

-- `tx.Rollback()`, which does nothing after a commit.
unfoldable pub rollback : Session → Session
rollback s = elim s.tx [ none ↦ s | some tx ↦ abandon tx s ]

abbrev pub settle_commit : Reply → Db → Session → Result (Unit {0}) × Session
settle_commit done tx s = (ok tt, record s { db = tx; tx = none })
settle_commit (refused m) tx s = (err (plain m), abandon tx s)
settle_commit (lost m) tx s = (err (plain m), record s { db = tx; tx = none })

-- `tx.Commit()`
unfoldable pub commit : M Session (Unit {0})
commit s = elim s.tx [
  | none ↦ (err tx_done, s)
  | some tx ↦ settle_commit (reply_of s) tx (count_call s)
]
