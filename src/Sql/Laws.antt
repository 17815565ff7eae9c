-- ===== src/Sql/Laws.antt =====
-- The laws of keyed tables, stated by the row that a key has.
use mathlib.Core.Option
use go_stripe_webhook_k8s.Base.{
  Bool, Option, none, some, List, [], ◌∷◌, ◌++◌, ◌&&◌, ◌≡◌, refl, Eq, ◌==◌, ==-self, All, ==-iff,
  if◌then◌else◌, Option-cases, arith,
}
use go_stripe_webhook_k8s.Sql.{row_of, insert_new, update_where, affected, IsKeyed}

-- The row that was there, or else the new one if its key passes the test.
abbrev pub or_row {ℓ} : {R : Type ℓ} → Option R → Bool → R → Option R
or_row (some x) test r = some x
or_row none test r = if test then some r else none

module _ {ℓ} {R : Type ℓ} {K : Type 0} ⦃e : Eq K⦄ (key : R → K) where
  pub row_of-key : (k : K) (rows : List R) (r : R) → row_of key k rows ≡ some r → key r ≡ k
  unfolding row_of
  row_of-key k [] r h = cc
  row_of-key k (x ∷ rows) r h = ground (arith, row_of-key k rows r, ==-iff (key x) k)

  pub row_of-append :
      (k : K) (rows : List R) (r : R)
      → row_of key k (rows ++ r ∷ []) ≡ or_row (row_of key k rows) (key r == k) r
  unfolding row_of
  row_of-append k [] r = refl
  row_of-append k (x ∷ rows) r = ground (arith, row_of-append k rows r)

  -- After an insertion a key has the row that it had, or else the new row if that is its key.
  pub row_of-insert_new :
      (k : K) (r : R) (rows : List R)
      → row_of key k (insert_new key r rows).0 ≡ or_row (row_of key k rows) (key r == k) r
  unfolding insert_new
  row_of-insert_new k r rows =
      ground
        (arith, row_of-append k rows r, ==-iff (key r) k, Option-cases (row_of key (key r) rows))

  pub IsKeyed-append :
      (rows : List R) (r : R)
      → row_of key (key r) rows ≡ none
      → IsKeyed key rows
      → IsKeyed key (rows ++ r ∷ [])
  unfolding row_of
  IsKeyed-append [] r h u = (refl, tt)
  IsKeyed-append (x ∷ rows) r h u = ground (
    arith,
    IsKeyed-append rows r,
    row_of-append (key x) rows r,
    ==-iff (key x) (key r),
    ==-iff (key r) (key x),
  )

  pub insert_new-IsKeyed :
      (r : R) (rows : List R) → IsKeyed key rows → IsKeyed key (insert_new key r rows).0
  unfolding insert_new
  insert_new-IsKeyed r rows u = ground (arith, IsKeyed-append rows r)

  module _ (k : K) (test : R → Bool) (f : R → R) (keeps : (r : R) → key (f r) ≡ key r) where
    pub row_of-update_where :
        (j : K) (rows : List R)
        → row_of key j (update_where key k test f rows)
          ≡ Option.map (λ r. if key r == k && test r then f r else r) (row_of key j rows)
    unfolding row_of update_where
    row_of-update_where j [] = refl
    row_of-update_where j (r ∷ rows) = ground (arith, row_of-update_where j rows, keeps r)

    pub update_where-IsKeyed :
        (rows : List R) → IsKeyed key rows → IsKeyed key (update_where key k test f rows)
    unfolding update_where
    update_where-IsKeyed [] u = tt
    update_where-IsKeyed (r ∷ rows) u =
        ground (arith, update_where-IsKeyed rows, row_of-update_where (key r) rows, keeps r)

  -- At most one row is affected, and it is the row that the key has.
  pub affected_lem :
      (k : K) (test : R → Bool) (rows : List R)
      → IsKeyed key rows
      → affected key k test rows
        ≡ elim (row_of key k rows) [ none ↦ 0 | some r ↦ if test r then 1 else 0 ]
  unfolding affected row_of
  affected_lem k test [] u = refl
  affected_lem k test (r ∷ rows) u = ground (arith, affected_lem k test rows, ==-iff (key r) k)

  -- What holds of the row of each key holds of all rows.
  pub row_of-covers :
      (P : R → Type 0) (rows : List R)
      → IsKeyed key rows
      → ((k : K) (r : R) → row_of key k rows ≡ some r → P r)
      → All P rows
  unfolding row_of
  row_of-covers P [] u h = tt
  row_of-covers P (r ∷ rows) u h = (
    h (key r) r (ground (arith, ==-self (key r))),
    row_of-covers P rows u.1 (λ k q found. h k q (ground (arith, ==-iff (key r) k))),
  )
