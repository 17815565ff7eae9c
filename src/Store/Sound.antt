-- ===== src/Store/Sound.antt =====
-- A session on a valid database whose other clients keep it valid and undo nothing.
use go_stripe_webhook_k8s.Base.{◌≡◌, none}
use go_stripe_webhook_k8s.Monad.{M}
use go_stripe_webhook_k8s.Store.Driver.{Session, arrive}
use go_stripe_webhook_k8s.Store.Rely.{Rely, Left, Keeps, Left-Rely}
use go_stripe_webhook_k8s.Store.Valid.{IsValid, KeepsValid}
use go_stripe_webhook_k8s.Store.Evolves.{Evolves}

pub record Sound (s : Session) : Type 0 where
  pub closed : s.tx ≡ none
  pub valid : IsValid s.db
  pub rely_valid : Rely KeepsValid s.script
  pub rely_evolves : Rely Evolves s.script

-- A method that respects both relations leaves a sound session.
pub Sound-after :
    {A : Type 0} (m : M Session A) (s : Session)
    → Keeps KeepsValid m
    → Keeps Evolves m
    → Sound s
    → Sound (m s).1
Sound-after m s keeps_valid evolves h =
    let v : Left KeepsValid s (m s).1 = keeps_valid.at s h.closed h.rely_valid in
    let e : Left Evolves s (m s).1 = evolves.at s h.closed h.rely_evolves in
    record {
      closed = v.closed;
      valid = v.related h.valid;
      rely_valid = Left-Rely v h.rely_valid;
      rely_evolves = Left-Rely e h.rely_evolves;
    }

-- What a call finds is sound too.
pub arrive-Sound : (s : Session) → Sound s → Sound (arrive s)
arrive-Sound s h = record {
  closed = h.closed;
  valid = h.rely_valid s.used s.db h.valid;
  rely_valid = h.rely_valid;
  rely_evolves = h.rely_evolves;
}

pub arrive-Evolves : (s : Session) → Sound s → Evolves s.db (arrive s).db
arrive-Evolves s h = h.rely_evolves s.used s.db
