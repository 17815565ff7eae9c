-- ===== src/Config/Steps.antt =====
-- The steps that the loaders of internal/config share, and when each lets its value pass.
use go_stripe_webhook_k8s.Base.{
  ℤ, is_positive, String, ◌≡◌, ◌≢◌, ◌↔◌, ◌⊎◌, refl, true, List, [], ◌∷◌, ◌==◌, string_eq, ==-iff,
  Bool-cases, inl, inr, arith,
}
use go_stripe_webhook_k8s.Go.{Result, ok, err}
use go_stripe_webhook_k8s.Config.{
  Environ, Url, default_publisher_poll_interval, trimmed, require, require_broker, brokers_of,
  split_csv, checked_url, validate_downstream_url, and_then, checked_interval, poll_interval_of,
}

module _ {A : Type 0} where
  pub ok_inj : (a b : A) → ◌≡◌ {A = Result A} (ok a) (ok b) → a ≡ b
  ok_inj a b h = cc

  pub require_iff :
      (why value : String) (next : String → Result A) (a : A)
      → (require why value next ≡ ok a) ↔ ((value ≢ "") × (next value ≡ ok a))
  unfolding require
  require_iff why value next a = elim (Bool-cases (value == "")) [
    | inl blank ↦ rw blank (λ h. cc, λ h. absurd (h.0 ((==-iff value "").0 blank)))
    | inr other ↦ rw other (λ h. (ground (arith, ==-iff value ""), h), λ h. h.1)
  ]

  pub require_broker_iff :
      (brokers : List String) (next : List String → Result A) (a : A)
      → (require_broker brokers next ≡ ok a) ↔ ((brokers ≢ []) × (next brokers ≡ ok a))
  unfolding require_broker
  require_broker_iff [] next a = (λ h. cc, λ h. absurd (h.0 refl))
  require_broker_iff (b ∷ bs) next a = (λ h. (cc, h), λ h. h.1)

  pub and_then_iff :
      {B : Type 0} (r : Result B) (next : B → Result A) (a : A)
      → (and_then r next ≡ ok a) ↔ ((b : B) × (r ≡ ok b) × (next b ≡ ok a))
  and_then_iff (ok b) next a = (λ h. (b, refl, h), λ (c, e, h). let same : b ≡ c = cc in rw same h)
  and_then_iff (err e) next a = (λ h. cc, λ (c, e, h). cc)

-- The list of brokers that a process gets.
abbrev pub HasBrokers : Environ → List String → Type 0
HasBrokers getenv brokers =
    (trimmed getenv "KAFKA_BROKERS" ≢ "")
    × (brokers ≢ [])
    × (split_csv (trimmed getenv "KAFKA_BROKERS") ≡ brokers)

pub brokers_of_iff :
    {A : Type 0} (getenv : Environ) (next : List String → Result A) (a : A)
    → (brokers_of getenv next ≡ ok a)
      ↔ ((brokers : List String) × HasBrokers getenv brokers × (next brokers ≡ ok a))
unfolding brokers_of
brokers_of_iff getenv next a =
    let raw = trimmed getenv "KAFKA_BROKERS" in
    (
      λ h.
          let (set, rest) = (require_iff _ raw _ a).0 h in
          let (some_, last) = (require_broker_iff (split_csv raw) next a).0 rest in
          (split_csv raw, (set, some_, refl), last),
      λ (brokers, (set, some_, same), last).
          (require_iff _ raw _ a).1
            (set, (require_broker_iff (split_csv raw) next a).1 (rw same (some_, last))),
    )

-- An address that `validateDownstreamURL` lets pass.
abbrev pub IsWebAddress : Result Url → Type 0
IsWebAddress (err e) = ⊥
IsWebAddress (ok u) = ((u.scheme ≡ "http") ⊎ (u.scheme ≡ "https")) × (u.host ≢ "")

pub checked_url_iff :
    (raw : String) (r : Result Url) (url : String)
    → (checked_url raw r ≡ ok url) ↔ (IsWebAddress r × (raw ≡ url))
checked_url_iff raw (err e) url = (λ h. cc, λ h. absurd h.0)
checked_url_iff raw (ok u) url = (
  λ h. ground (arith, ==-iff u.scheme "http", ==-iff u.scheme "https", ==-iff u.host ""),
  λ h. ground (arith, ==-iff u.scheme "http", ==-iff u.scheme "https", ==-iff u.host ""),
)

pub validate_downstream_url_iff :
    (parse : String → Result Url) (raw url : String)
    → (validate_downstream_url parse raw ≡ ok url) ↔ (IsWebAddress (parse raw) × (raw ≡ url))
unfolding validate_downstream_url
validate_downstream_url_iff parse raw url = checked_url_iff raw (parse raw) url

-- The default for no interval, or else a positive one.
abbrev pub HasInterval : (String → Result ℤ) → String → ℤ → Type 0
HasInterval parse_duration raw d =
    ((raw ≡ "") × (d ≡ default_publisher_poll_interval))
    ⊎ ((raw ≢ "") × (parse_duration raw ≡ ok d) × (is_positive d ≡ true))

pub checked_interval_iff :
    (r : Result ℤ) (d : ℤ) → (checked_interval r ≡ ok d) ↔ ((r ≡ ok d) × (is_positive d ≡ true))
checked_interval_iff (err e) d = (λ h. cc, λ h. cc)
checked_interval_iff (ok c) d = elim (Bool-cases (is_positive c)) [
  | inl up ↦ rw up (λ h. let same : c ≡ d = cc in (h, rw (← same) up), λ h. h.0)
  | inr down ↦ rw down (λ h. cc, λ h. let same : c ≡ d = cc in ground arith)
]

pub poll_interval_of_iff :
    (parse_duration : String → Result ℤ) (raw : String) (d : ℤ)
    → (poll_interval_of parse_duration raw ≡ ok d) ↔ HasInterval parse_duration raw d
unfolding poll_interval_of
poll_interval_of_iff parse_duration raw d = elim (Bool-cases (raw == "")) [
  | inl blank ↦
      let same : raw ≡ "" = (==-iff raw "").0 blank in
      rw blank (λ h. inl (same, cc), λ h. ground arith)
  | inr other ↦
      let set : raw ≢ "" = ground (arith, ==-iff raw "") in
      let checks = checked_interval_iff (parse_duration raw) d in
      rw other (
        λ h. let (parsed, up) = checks.0 h in inr (set, parsed, up),
        λ h. elim h [
          | inl (same, default) ↦ absurd (set same)
          | inr (set_, parsed, up) ↦ checks.1 (parsed, up)
        ],
      )
]
