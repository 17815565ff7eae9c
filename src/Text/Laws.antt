-- ===== src/Text/Laws.antt =====
-- Laws of trimming and splitting.
use Prim.Native.Char.{Char, code}
use text.Mathlib.TextLemmas.{nil-append, cons-append}
use go_stripe_webhook_k8s.Base.{
  ℕ, String, ◌<>◌, ◌≡◌, ◌≢◌, refl, ap, true, false, List, [], ◌∷◌, All, Bool-cases, inl, inr,
  nat_eq, arith,
}
use go_stripe_webhook_k8s.Text.{
  is_space, trim_left, before, trim_right, trim_space, in_front, split,
}

-- The text does not begin with a space.
abbrev Begins : String → Type 0
Begins String.[] = Unit
Begins (String.◌∷◌ c s) = is_space (code c) ≡ false

-- No character of the text is the separator.
abbrev pub Lacks : ℕ → String → Type 0
Lacks sep String.[] = Unit
Lacks sep (String.◌∷◌ c s) = (code c ≢ sep) × Lacks sep s

trim_left-Begins : (s : String) → Begins (trim_left s)
unfolding trim_left
trim_left-Begins String.[] = tt
trim_left-Begins (String.◌∷◌ c s) = elim (Bool-cases (is_space (code c))) [
  | inl space ↦ rw space (trim_left-Begins s)
  | inr other ↦ rw other other
]

trim_left_fixed : (s : String) → Begins s → trim_left s ≡ s
unfolding trim_left
trim_left_fixed String.[] h = refl
trim_left_fixed (String.◌∷◌ c s) h = rw h refl

before-Begins : (c : Char) (s : String) → is_space (code c) ≡ false → Begins (before c s)
unfolding before
before-Begins c String.[] h = rw h h
before-Begins c (String.◌∷◌ d s) h = h

trim_right-Begins : (s : String) → Begins s → Begins (trim_right s)
unfolding trim_right
trim_right-Begins String.[] h = tt
trim_right-Begins (String.◌∷◌ c s) h = before-Begins c (trim_right s) h

trim_right-before :
    (c : Char) (s : String) → trim_right s ≡ s → trim_right (before c s) ≡ before c s
unfolding trim_right before
trim_right-before c String.[] h = elim (Bool-cases (is_space (code c))) [
  | inl space ↦ rw space refl
  | inr other ↦ rw other (rw other refl)
]
trim_right-before c (String.◌∷◌ d s) h = ap (before c) h

trim_right_idem : (s : String) → trim_right (trim_right s) ≡ trim_right s
unfolding trim_right
trim_right_idem String.[] = refl
trim_right_idem (String.◌∷◌ c s) = trim_right-before c (trim_right s) (trim_right_idem s)

-- A trimmed text is trimmed.
pub trim_space_idem : (s : String) → trim_space (trim_space s) ≡ trim_space s
unfolding trim_space
trim_space_idem s =
    rw (trim_left_fixed (trim_right (trim_left s)) (trim_right-Begins _ (trim_left-Begins s)))
      (trim_right_idem (trim_left s))

trim_left-Lacks : (sep : ℕ) (s : String) → Lacks sep s → Lacks sep (trim_left s)
unfolding trim_left
trim_left-Lacks sep String.[] h = tt
trim_left-Lacks sep (String.◌∷◌ c s) h = elim (Bool-cases (is_space (code c))) [
  | inl space ↦ rw space (trim_left-Lacks sep s h.1)
  | inr other ↦ rw other h
]

before-Lacks :
    (sep : ℕ) (c : Char) (s : String) → code c ≢ sep → Lacks sep s → Lacks sep (before c s)
unfolding before
before-Lacks sep c String.[] h k = elim (Bool-cases (is_space (code c))) [
  | inl space ↦ rw space tt
  | inr other ↦ rw other (h, tt)
]
before-Lacks sep c (String.◌∷◌ d s) h k = (h, k)

trim_right-Lacks : (sep : ℕ) (s : String) → Lacks sep s → Lacks sep (trim_right s)
unfolding trim_right
trim_right-Lacks sep String.[] h = tt
trim_right-Lacks sep (String.◌∷◌ c s) h =
    before-Lacks sep c (trim_right s) h.0 (trim_right-Lacks sep s h.1)

pub trim_space-Lacks : (sep : ℕ) (s : String) → Lacks sep s → Lacks sep (trim_space s)
unfolding trim_space
trim_space-Lacks sep s h = trim_right-Lacks sep (trim_left s) (trim_left-Lacks sep s h)

in_front-Lacks :
    (sep : ℕ) (c : Char) (ps : List String)
    → code c ≢ sep
    → All (Lacks sep) ps
    → All (Lacks sep) (in_front c ps)
unfolding in_front
in_front-Lacks sep c [] h k = ((h, tt), tt)
in_front-Lacks sep c (p ∷ ps) h k = ((h, k.0), k.1)

-- No part holds the separator.
pub split-Lacks : (s : String) (sep : ℕ) → All (Lacks sep) (split s sep)
unfolding split
split-Lacks String.[] sep = (tt, tt)
split-Lacks (String.◌∷◌ c s) sep = elim (Bool-cases (nat_eq (code c) sep)) [
  | inl same ↦ rw same (tt, split-Lacks s sep)
  | inr other ↦ rw other (in_front-Lacks sep c (split s sep) (ground arith) (split-Lacks s sep))
]

-- A text without the separator is one part.
pub split_whole : (s : String) (sep : ℕ) → Lacks sep s → split s sep ≡ s ∷ []
unfolding split in_front
split_whole String.[] sep h = refl
split_whole (String.◌∷◌ c s) sep h =
    let other : nat_eq (code c) sep ≡ false = ground arith in rw (other, split_whole s sep h.1) refl

-- A text in front of a separator is the first part.
pub split-append :
    (p rest : String) (sep : Char)
    → Lacks (code sep) p
    → split (p <> String.◌∷◌ sep rest) (code sep) ≡ p ∷ split rest (code sep)
unfolding split in_front
split-append String.[] rest sep h =
    let same : nat_eq (code sep) (code sep) ≡ true = ground arith in
    rw (nil-append (String.◌∷◌ sep rest), same) refl
split-append (String.◌∷◌ c p) rest sep h =
    let other : nat_eq (code c) (code sep) ≡ false = ground arith in
    rw (cons-append c p (String.◌∷◌ sep rest), other, split-append p rest sep h.1) refl
