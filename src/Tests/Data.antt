-- ===== src/Tests/Data.antt =====
-- The inputs of the tests.
use go_stripe_webhook_k8s.Base.{◌+◌, ℕ, String, none, [], ◌∷◌, refl, arith, inl, inr}
use go_stripe_webhook_k8s.Go.{Bytes, plain, Result, ok, err}
use go_stripe_webhook_k8s.Sql
use go_stripe_webhook_k8s.Engine.{Job}
use go_stripe_webhook_k8s.Store.Schema.{Db, LedgerRecord, OutboxRecord, CompletionRecord}
use go_stripe_webhook_k8s.Store.Driver.{Session}
use go_stripe_webhook_k8s.Store.Lifecycle.{calm}
use go_stripe_webhook_k8s.Store.Valid.{IsValid}
use go_stripe_webhook_k8s.Store.Evolves.{Evolves-Respects}
use go_stripe_webhook_k8s.Store.Sound.{Sound}
use go_stripe_webhook_k8s.Worker.Downstream.{DownstreamClient}
use go_stripe_webhook_k8s.Worker.Record.{KafkaRecord, Env}

abbrev pub accepted_event : LedgerRecord
accepted_event = record {
  event_id = "evt_1";
  event_type = "invoice.paid";
  status = "accepted";
  received_at = 5;
  processed_at = none;
}

abbrev pub pending_event : OutboxRecord
pending_event = record {
  id = 1;
  event_id = "evt_1";
  event_type = "invoice.paid";
  payload = 110 ∷ [];
  status = "pending";
  created_at = 5;
  published_at = none;
}

abbrev pub completion : String → CompletionRecord
completion state = record {
  event_id = "evt_1";
  consumer_name = "billing";
  event_type = "invoice.paid";
  status = state;
  error = none;
  attempt_count = 2;
  created_at = 6;
  updated_at = 6;
  processed_at = none;
}

-- A database with one event, whose completion has the given status.
abbrev pub one_event : String → Db
one_event state = record {
  ledger = accepted_event ∷ [];
  outbox = pending_event ∷ [];
  completions = completion state ∷ [];
  next_id = 2;
  now = 7;
}

abbrev pub empty_db : Db
empty_db = record { ledger = []; outbox = []; completions = []; next_id = 1; now = 7 }

abbrev pub invoice : Job
invoice = record { stripe_event_id = "evt_1"; event_type = "invoice.paid"; payload = 110 ∷ [] }

-- A downstream that counts its jobs and accepts them.
abbrev pub counter : DownstreamClient ℕ
counter = record { deliver_job = λ j n. (ok tt, n + 1) }

abbrev pub read_invoice : Bytes → Result Job
read_invoice [] = err (plain "unexpected end of JSON input")
read_invoice (b ∷ bs) = ok invoice

abbrev pub message_1 : KafkaRecord
message_1 = record { partition = 0; offset = 40; value = 110 ∷ [] }

abbrev pub worker_on : Db → Env Session ℕ
worker_on db = record { store = calm 0 db; net = 0; log = [] }

pub empty_db-Sound : Sound (calm 0 empty_db)
unfolding Sql.row_of
empty_db-Sound = record {
  closed = refl;
  valid = record {
    ledger_keyed = tt;
    outbox_keyed = tt;
    completions_keyed = tt;
    referenced = λ id e. refl;
    ledger_checked = tt;
    outbox_checked = tt;
    outbox_ordered = tt;
    completions_checked = tt;
  };
  rely_valid = λ n db h. h;
  rely_evolves = λ n db. Evolves-Respects.preorder.reflexive db;
}

pub processing_db-IsValid : IsValid (one_event "processing")
unfolding Sql.row_of
processing_db-IsValid = record {
  ledger_keyed = (refl, tt);
  outbox_keyed = (refl, tt);
  completions_keyed = (refl, tt);
  referenced = λ id e. ground arith;
  ledger_checked = (inr (inl refl), tt);
  outbox_checked = ((inl refl, omega arith), tt);
  outbox_ordered = (tt, tt);
  completions_checked = ((inl refl, omega arith, omega arith), tt);
}

processed_db-IsValid : IsValid (one_event "processed")
unfolding Sql.row_of
processed_db-IsValid = record {
  ledger_keyed = (refl, tt);
  outbox_keyed = (refl, tt);
  completions_keyed = (refl, tt);
  referenced = λ id e. ground arith;
  ledger_checked = (inr (inl refl), tt);
  outbox_checked = ((inl refl, omega arith), tt);
  outbox_ordered = (tt, tt);
  completions_checked = ((inr (inl refl), omega arith, omega arith), tt);
}

pub calm-Sound : (db : Db) → IsValid db → Sound (calm 0 db)
calm-Sound db valid = record {
  closed = refl;
  valid = valid;
  rely_valid = λ n d h. h;
  rely_evolves = λ n d. Evolves-Respects.preorder.reflexive d;
}

pub processing-Sound : Sound (calm 0 (one_event "processing"))
processing-Sound = calm-Sound _ processing_db-IsValid

pub processed-Sound : Sound (calm 0 (one_event "processed"))
processed-Sound = calm-Sound _ processed_db-IsValid
