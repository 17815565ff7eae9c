-- ===== src/Sql.antt =====
-- What the SQL text of internal/store/postgres.go asks of a table with a primary or unique key:
-- a table is the list of its rows, in the order in which they were inserted.
pub mod Laws
use go_stripe_webhook_k8s.Base.{
  ℕ, ◌+◌, Bool, Option, none, some, List, [], ◌∷◌, ◌++◌, ◌&&◌, ◌≡◌, Eq, ◌==◌, if◌then◌else◌,
}

module _ {ℓ} {R : Type ℓ} {K : Type 0} ⦃e : Eq K⦄ (key : R → K) where
  -- `SELECT … WHERE key = $1`, the first row that answers.
  unfoldable pub row_of : K → List R → Option R
  row_of k [] = none
  row_of k (r ∷ rs) = if key r == k then some r else row_of k rs

  -- `INSERT … ON CONFLICT (key) DO NOTHING`, with the number of rows affected.
  unfoldable pub insert_new : R → List R → List R × ℕ
  insert_new r rows = elim (row_of (key r) rows) [ none ↦ (rows ++ r ∷ [], 1) | some _ ↦ (rows, 0) ]

  -- `UPDATE … SET f WHERE key = $1 AND test`.
  unfoldable pub update_where : K → (R → Bool) → (R → R) → List R → List R
  update_where k test f [] = []
  update_where k test f (r ∷ rs) =
      (if key r == k && test r then f r else r) ∷ update_where k test f rs

  -- The number of rows that such an `UPDATE` affects.
  unfoldable pub affected : K → (R → Bool) → List R → ℕ
  affected k test [] = 0
  affected k test (r ∷ rs) = (if key r == k && test r then 1 else 0) + affected k test rs

  -- The key is unique: no row has the key of an earlier one.
  abbrev pub IsKeyed : List R → Type ℓ
  IsKeyed [] = Unit
  IsKeyed (r ∷ rs) = (row_of (key r) rs ≡ none) × IsKeyed rs
