-- ===== src/Api/Http.antt =====
-- The interface `http.ResponseWriter`, `http.Error`, and `responseRecorder` of
-- cmd/api/requestlog.go, which is another writer around one.
use go_stripe_webhook_k8s.Base.{
  ℕ, ◌+◌, String, ◌<>◌, Bool, true, false, Option, nat_eq, if◌then◌else◌,
}
use go_stripe_webhook_k8s.Go.{Error}

-- `http.ResponseWriter`, over the state `W` of the response. `write` answers the count of bytes and
-- the error, if there is one.
pub record ResponseWriter (W : Type 0) : Type 0 where
  pub set_header : String → String → W → W
  pub write_header : ℕ → W → W
  pub write : String → W → (ℕ × Option Error) × W

-- `http.StatusText`, for the codes that the program sends by `http.Error`.
abbrev pub status_text : ℕ → String
status_text code =
    if nat_eq code 400
    then "Bad Request"
    else if nat_eq code 405
    then "Method Not Allowed"
    else if nat_eq code 413
    then "Request Entity Too Large"
    else if nat_eq code 500
    then "Internal Server Error"
    else if nat_eq code 503
    then "Service Unavailable"
    else ""

-- `http.Error`
unfoldable pub error_response : {W : Type 0} → ResponseWriter W → String → ℕ → W → W
error_response wr body code w =
    (wr.write (body <> "\n") (
      wr.write_header code (
        wr.set_header "X-Content-Type-Options" "nosniff"
          (wr.set_header "Content-Type" "text/plain; charset=utf-8" w)))).1

-- `responseRecorder`
pub record ResponseRecorder (W : Type 0) : Type 0 where
  pub response_writer : W
  pub status : ℕ
  pub bytes : ℕ
  pub wrote_header : Bool

module _ {W : Type 0} (wr : ResponseWriter W) where
  -- `(*responseRecorder).WriteHeader`
  unfoldable pub write_header : ℕ → ResponseRecorder W → ResponseRecorder W
  write_header code w = record w {
    status = code;
    wrote_header = true;
    response_writer = wr.write_header code w.response_writer;
  }

  abbrev pub ensure_header : ResponseRecorder W → ResponseRecorder W
  ensure_header w = if w.wrote_header then w else write_header 200 w

  abbrev pub count_bytes :
      ResponseRecorder W → (ℕ × Option Error) × W → (ℕ × Option Error) × ResponseRecorder W
  count_bytes w ((n, e), inner) =
      ((n, e), record w { response_writer = inner; bytes = w.bytes + n })

  -- `(*responseRecorder).Write`
  unfoldable pub write : String → ResponseRecorder W → (ℕ × Option Error) × ResponseRecorder W
  write b w = let w' = ensure_header w in count_bytes w' (wr.write b w'.response_writer)

  -- The recorder as a writer; `Header` is the one of the writer within.
  unfoldable pub recorder : ResponseWriter (ResponseRecorder W)
  unfolding write_header write
  recorder = record {
    set_header = λ k v w. record w { response_writer = wr.set_header k v w.response_writer };
    write_header = write_header;
    write = write;
  }

-- The recorder that `RequestLog` puts around a writer.
abbrev pub new_recorder : {W : Type 0} → W → ResponseRecorder W
new_recorder w = record { response_writer = w; status = 200; bytes = 0; wrote_header = false }
