-- ===== src/Config/Csv.antt =====
-- The entries of a comma-separated variable (`splitCSV` of internal/config/worker.go).
use mathlib.Core.List.{append_assoc, append-nil}
use go_stripe_webhook_k8s.Base.{
  map, String, ◌<>◌, ◌≡◌, ◌≢◌, refl, sym, ◌∙◌, false, List, [], ◌∷◌, ◌++◌, ◌==◌, string_eq, ==-iff,
  All, All-append, Bool-cases, if◌then◌else◌, inl, inr, arith,
}
use go_stripe_webhook_k8s.Text.{trim_space, trim_left, trim_right, split}
use go_stripe_webhook_k8s.Text.Laws.{
  Lacks, trim_space_idem, trim_space-Lacks, split-Lacks, split_whole, split-append,
}
use go_stripe_webhook_k8s.Config.{csv_from, split_csv}

-- Not empty, with no space at its ends and no comma.
abbrev pub IsEntry : String → Type 0
IsEntry p = (p ≢ "") × (trim_space p ≡ p) × Lacks b',' p

csv_from-All :
    (out ps : List String) → All IsEntry out → All (Lacks b',') ps → All IsEntry (csv_from out ps)
unfolding csv_from
csv_from-All out [] h k = h
csv_from-All out (p ∷ ps) h k = elim (Bool-cases (trim_space p == "")) [
  | inl blank ↦ rw blank (csv_from-All out ps h k.1)
  | inr other ↦
      let entry : IsEntry (trim_space p) = (
        ground (arith, ==-iff (trim_space p) ""),
        trim_space_idem p,
        trim_space-Lacks b',' p k.0,
      ) in
      rw other (
        csv_from-All (out ++ trim_space p ∷ []) ps
          (All-append IsEntry out (trim_space p ∷ []) h (entry, tt)) k.1)
]

-- What `splitCSV` returns are entries.
pub split_csv-All : (s : String) → All IsEntry (split_csv s)
unfolding split_csv
split_csv-All s = csv_from-All [] (split s b',') tt (split-Lacks s b',')

-- Entries with commas between them.
unfoldable pub join : List String → String
join [] = ""
join (p ∷ []) = p
join (p ∷ q ∷ ps) = p <> String.◌∷◌ "," (join (q ∷ ps))

split-join :
    (p : String) (ps : List String) → All IsEntry (p ∷ ps) → split (join (p ∷ ps)) b',' ≡ p ∷ ps
unfolding join
split-join p [] h = split_whole p b',' h.0.2
split-join p (q ∷ ps) h = rw (split-append p (join (q ∷ ps)) "," h.0.2, split-join q ps h.1) refl

csv_from-entries : (out ps : List String) → All IsEntry ps → csv_from out ps ≡ out ++ ps
unfolding csv_from
csv_from-entries out [] h = sym (append-nil out)
csv_from-entries out (p ∷ ps) h =
    let other : (p == "") ≡ false = ground (arith, ==-iff p "") in
    rw (h.0.1, other) (csv_from-entries (out ++ p ∷ []) ps h.1 ∙ append_assoc out (p ∷ []) ps)

split_csv-nil : split_csv "" ≡ []
unfolding split_csv split csv_from trim_space trim_left trim_right
split_csv-nil = refl

-- Every list of texts that are not empty, have no space at their ends and no comma is what
-- `splitCSV` gives for them with commas between.
pub split_csv-join : (ps : List String) → All IsEntry ps → split_csv (join ps) ≡ ps
unfolding split_csv
split_csv-join [] h = unfold join in split_csv-nil
split_csv-join (p ∷ ps) h = rw (split-join p ps h) (csv_from-entries [] (p ∷ ps) h)

-- The parts that are not empty.
unfoldable pub without_blanks : List String → List String
without_blanks [] = []
without_blanks (p ∷ ps) = let rest = without_blanks ps in if p == "" then rest else p ∷ rest

csv_from-append :
    (out ps : List String) → csv_from out ps ≡ out ++ without_blanks (map trim_space ps)
unfolding csv_from without_blanks
csv_from-append out [] = sym (append-nil out)
csv_from-append out (p ∷ ps) = elim (Bool-cases (trim_space p == "")) [
  | inl blank ↦ rw blank (csv_from-append out ps)
  | inr other ↦ rw other (
      csv_from-append (out ++ trim_space p ∷ []) ps
      ∙ append_assoc out (trim_space p ∷ []) (without_blanks (map trim_space ps)))
]

-- The loop of `splitCSV` is what is left of the parts between the commas, each trimmed, without the
-- empty ones, in their order.
pub split_csv_lem : (s : String) → split_csv s ≡ without_blanks (map trim_space (split s b','))
unfolding split_csv
split_csv_lem s = csv_from-append [] (split s b',')
