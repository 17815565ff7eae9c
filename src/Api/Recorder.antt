-- ===== src/Api/Recorder.antt =====
-- The status that `responseRecorder` keeps (cmd/api/requestlog.go) and the one that is sent.
use go_stripe_webhook_k8s.Base.{
  true≢false, ℕ, ◌≤◌, String, ◌≡◌, refl, ◌∙◌, sym, Bool, true, false, Option, none, some,
  if◌then◌else◌, arith,
}
use go_stripe_webhook_k8s.Go.{Error}
use go_stripe_webhook_k8s.Api.Http.{
  ResponseWriter, ResponseRecorder, recorder, new_recorder, error_response, write_header, write,
  ensure_header, count_bytes,
}

-- What net/http documents of its writer; `sent` is the status that was sent, if one was. Only the
-- first header counts, and a write without one sends 200. (A status below 200 is not final.)
pub record IsHttp {W : Type 0} (wr : ResponseWriter W) (sent : W → Option ℕ) : Type 0 where
  pub header_kept : (k v : String) (w : W) → sent (wr.set_header k v w) ≡ sent w
  pub first_header :
      (code : ℕ) (w : W) → 200 ≤ code → sent w ≡ none → sent (wr.write_header code w) ≡ some code
  pub first_write : (b : String) (w : W) → sent w ≡ none → sent (wr.write b w).1 ≡ some 200
  pub later_header : (code c : ℕ) (w : W) → sent w ≡ some c → sent (wr.write_header code w) ≡ some c
  pub later_write : (b : String) (c : ℕ) (w : W) → sent w ≡ some c → sent (wr.write b w).1 ≡ some c

-- The status of a response that is over: 200 if nothing was said.
abbrev pub final_status : Option ℕ → ℕ
final_status none = 200
final_status (some c) = c

module _ {W : Type 0} {wr : ResponseWriter W} {sent : W → Option ℕ} (http : IsHttp wr sent) where
  -- Nothing was sent yet.
  pub record IsFresh (rec : ResponseRecorder W) : Type 0 where
    pub unsent : sent rec.response_writer ≡ none
    pub initial : rec.status ≡ 200
    pub no_header : rec.wrote_header ≡ false

  -- The recorder knows the status that was sent.
  pub record IsTold (rec : ResponseRecorder W) : Type 0 where
    pub told : sent rec.response_writer ≡ some rec.status
    pub has_header : rec.wrote_header ≡ true

  pub new_recorder-IsFresh : (w : W) → sent w ≡ none → IsFresh (new_recorder w)
  new_recorder-IsFresh w h = record { unsent = h; initial = refl; no_header = refl }

  pub set_header-IsFresh :
      (k v : String) (rec : ResponseRecorder W)
      → IsFresh rec
      → IsFresh ((recorder wr).set_header k v rec)
  unfolding recorder
  set_header-IsFresh k v rec h = record {
    unsent = http.header_kept k v rec.response_writer ∙ h.unsent;
    initial = h.initial;
    no_header = h.no_header;
  }

  write_header_at :
      (code : ℕ) (rec : ResponseRecorder W)
      → 200 ≤ code
      → IsFresh rec
      → IsTold (write_header wr code rec)
  unfolding write_header
  write_header_at code rec final h = record {
    told = http.first_header code rec.response_writer final h.unsent;
    has_header = refl;
  }

  pub write_header-IsTold :
      (code : ℕ) (rec : ResponseRecorder W)
      → 200 ≤ code
      → IsFresh rec
      → IsTold ((recorder wr).write_header code rec)
  unfolding recorder
  write_header-IsTold = write_header_at

  choose-IsTold :
      (b : Bool) (x y : ResponseRecorder W)
      → (b ≡ true → IsTold x)
      → (b ≡ false → IsTold y)
      → IsTold (if b then x else y)
  choose-IsTold true x y h k = h refl
  choose-IsTold false x y h k = k refl

  count_bytes-IsTold :
      (rec : ResponseRecorder W) (x : (ℕ × Option Error) × W)
      → sent x.1 ≡ some rec.status
      → rec.wrote_header ≡ true
      → IsTold (count_bytes wr rec x).1
  count_bytes-IsTold rec ((n, e), w) h k = record { told = h; has_header = k }

  written-IsTold :
      (b : String) (rec : ResponseRecorder W)
      → IsTold rec
      → IsTold (count_bytes wr rec (wr.write b rec.response_writer)).1
  written-IsTold b rec h =
      count_bytes-IsTold rec (wr.write b rec.response_writer)
        (http.later_write b rec.status rec.response_writer h.told) h.has_header

  write_again : (b : String) (rec : ResponseRecorder W) → IsTold rec → IsTold (write wr b rec).1
  unfolding write
  write_again b rec h = written-IsTold b (ensure_header wr rec) (
      choose-IsTold rec.wrote_header rec (write_header wr 200 rec) (λ e. h)
        (λ e. absurd (true≢false (sym h.has_header ∙ e))))

  write_fresh : (b : String) (rec : ResponseRecorder W) → IsFresh rec → IsTold (write wr b rec).1
  unfolding write
  write_fresh b rec h = written-IsTold b (ensure_header wr rec) (
      choose-IsTold rec.wrote_header rec (write_header wr 200 rec)
        (λ e. absurd (true≢false (sym e ∙ h.no_header)))
        (λ e. write_header_at 200 rec (omega arith) h))

  pub write-IsTold :
      (b : String) (rec : ResponseRecorder W) → IsTold rec → IsTold ((recorder wr).write b rec).1
  unfolding recorder
  write-IsTold = write_again

  pub first_write-IsTold :
      (b : String) (rec : ResponseRecorder W) → IsFresh rec → IsTold ((recorder wr).write b rec).1
  unfolding recorder
  first_write-IsTold = write_fresh

  -- An error response on a fresh recorder.
  pub error_response-IsTold :
      (body : String) (code : ℕ) (rec : ResponseRecorder W)
      → 200 ≤ code
      → IsFresh rec
      → IsTold (error_response (recorder wr) body code rec)
  unfolding error_response
  error_response-IsTold body code rec final h =
      write-IsTold _ _
        (write_header-IsTold code _ final (set_header-IsFresh _ _ _ (set_header-IsFresh _ _ rec h)))

pub if_both :
    {A : Type 0} (P : A → Type 0) (b : Bool) (x y : A) → P x → P y → P (if b then x else y)
if_both P true x y h k = h
if_both P false x y h k = k

-- What the client gets through a recorder.
abbrev pub sent_through : {W : Type 0} → (W → Option ℕ) → ResponseRecorder W → Option ℕ
sent_through sent rec = sent rec.response_writer

module _ {W : Type 0} {wr : ResponseWriter W} {sent : W → Option ℕ} (http : IsHttp wr sent) where
  -- A recorder is a writer that sends what the writer within sends.
  pub recorder-IsHttp : IsHttp (recorder wr) (sent_through sent)
  unfolding recorder write_header write
  recorder-IsHttp = record {
    header_kept = λ k v rec. http.header_kept k v rec.response_writer;
    first_header = λ code rec final h. http.first_header code rec.response_writer final h;
    first_write = λ b rec h.
        if_both (λ r. sent (wr.write b r.response_writer).1 ≡ some 200) rec.wrote_header rec
          (write_header wr 200 rec) (http.first_write b rec.response_writer h)
          (http.later_write b 200 _ (http.first_header 200 rec.response_writer (omega arith) h));
    later_header = λ code c rec h. http.later_header code c rec.response_writer h;
    later_write = λ b c rec h.
        if_both (λ r. sent (wr.write b r.response_writer).1 ≡ some c) rec.wrote_header rec
          (write_header wr 200 rec) (http.later_write b c rec.response_writer h)
          (http.later_write b c _ (http.later_header 200 c rec.response_writer h));
  }
