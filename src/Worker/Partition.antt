-- ===== src/Worker/Partition.antt =====
-- cmd/worker/partition.go: the records of one partition's batch that may be committed.
pub mod Laws
use go_stripe_webhook_k8s.Base.{Bool, true, false, List, [], ◌∷◌, ◌++◌, if◌then◌else◌}

module _ {R W : Type 0} (handle : R → W → Bool × W) where
  -- The loop, with what it has collected; a record that is not handled breaks it.
  abbrev pub commit_from : List R → List R → W → List R × W
  commit_from committed [] w = (committed, w)
  commit_from committed (rec ∷ records) w =
      let (handled, w') = handle rec w in
      let rest = commit_from (committed ++ rec ∷ []) records w' in
      if handled then rest else (committed, w')

  -- `recordsSafeToCommit`
  unfoldable pub records_safe_to_commit : List R → W → List R × W
  records_safe_to_commit records w = commit_from [] records w
