-- ===== src/Worker/Partition/Laws.antt =====
-- The records of a batch that `recordsSafeToCommit` (cmd/worker/partition.go) returns.
use go_stripe_webhook_k8s.Base.{
  ◌≡◌, refl, sym, subst, ◌∙◌, ap, Bool, true, false, List, [], ◌∷◌, ◌++◌, Bool-cases, inl, inr,
}
use mathlib.Core.List.{append_assoc, append-nil}
use go_stripe_webhook_k8s.Worker.Partition.{commit_from, records_safe_to_commit}

module _ {R W : Type 0} (handle : R → W → Bool × W) where
  -- From `w`, the handler accepts all of `committed` in turn, and then either nothing is left or it
  -- refuses the first record of `rest`; that leads to `w'`.
  abbrev pub Stops : List R → List R → W → W → Type 0
  Stops [] [] w w' = w' ≡ w
  Stops [] (rec ∷ rest) w w' = handle rec w ≡ (false, w')
  Stops (rec ∷ committed) rest w w' =
      ((handle rec w).0 ≡ true) × Stops committed rest (handle rec w).1 w'

  abbrev Splits : List R → List R → W → List R × W → Type 0
  Splits acc records w (committed, w') =
      (taken : List R) × (rest : List R) × (committed ≡ acc ++ taken)
      × (records ≡ taken ++ rest)
      × Stops taken rest w w'

  commit_from-Splits :
      (acc records : List R) (w : W) → Splits acc records w (commit_from handle acc records w)
  commit_from-Splits acc [] w = ([], [], sym (append-nil acc), refl, refl)
  commit_from-Splits acc (rec ∷ records) w = elim (Bool-cases (handle rec w).0) [
    | inl accepted ↦
        let (taken, rest, same, split, stops) =
          commit_from-Splits (acc ++ rec ∷ []) records (handle rec w).1 in
        rw accepted (
          rec ∷ taken,
          rest,
          same ∙ append_assoc acc (rec ∷ []) taken,
          ap (λ l. rec ∷ l) split,
          (accepted, stops),
        )
    | inr refused ↦
        rw refused
          ([], rec ∷ records, sym (append-nil acc), refl, ap (λ b. (b, (handle rec w).1)) refused)
  ]

  -- The committed records are a prefix of the batch, in order; each of them was handled, in the
  -- state that the one before it left; and where the prefix is not the whole batch, the next record
  -- was handled last, without success.
  pub records_safe_to_commit-prefix :
      (records : List R) (w : W)
      → let (committed, w') = records_safe_to_commit handle records w in
        (rest : List R) × (records ≡ committed ++ rest) × Stops committed rest w w'
  unfolding records_safe_to_commit
  records_safe_to_commit-prefix records w =
      let (taken, rest, same, split, stops) = commit_from-Splits [] records w in
      (
        rest,
        split ∙ ap (λ l. l ++ rest) (sym same),
        subst (λ l. Stops l rest w (commit_from handle [] records w).1) (sym same) stops,
      )
