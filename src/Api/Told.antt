-- ===== src/Api/Told.antt =====
-- What `responseRecorder` (cmd/api/requestlog.go) keeps of a response, over any calls by which a handler
-- writes it.
use go_stripe_webhook_k8s.Base.{
  true≢false, if◌then◌else◌, ℕ, ◌+◌, ◌≤◌, String, ◌≡◌, refl, sym, ap, ◌∙◌, Bool, true, false,
  Option, none, some, List, [], ◌∷◌, arith,
}
use go_stripe_webhook_k8s.Go.{Error}
use go_stripe_webhook_k8s.Api.Http.{
  ResponseWriter, ResponseRecorder, recorder, new_recorder, write_header, write, ensure_header,
  count_bytes,
}
use go_stripe_webhook_k8s.Api.Recorder.{
  IsHttp, IsFresh, IsTold, new_recorder-IsFresh, write_header-IsTold, write-IsTold,
  first_write-IsTold, recorder-IsHttp, sent_through, final_status,
}

-- A call of a handler on its writer.
pub data Call : Type 0 where
  sets : String → String → Call
  begins : ℕ → Call
  writes : String → Call

-- The calls in their order: the bytes that they were answered to have written, and the writer.
abbrev pub perform : {W : Type 0} → ResponseWriter W → List Call → W → ℕ × W
perform wr [] w = (0, w)
perform wr (sets k v ∷ calls) w = perform wr calls (wr.set_header k v w)
perform wr (begins code ∷ calls) w = perform wr calls (wr.write_header code w)
perform wr (writes b ∷ calls) w =
    let ((n, e), w') = wr.write b w in let (m, w'') = perform wr calls w' in (n + m, w'')

-- No header is written after the response has begun, and each status is a final one.
abbrev pub Proper : Bool → List Call → Type 0
Proper begun [] = Unit
Proper begun (sets k v ∷ calls) = Proper begun calls
Proper begun (begins code ∷ calls) = (begun ≡ false) × (200 ≤ code) × Proper true calls
Proper begun (writes b ∷ calls) = Proper true calls

abbrev pub is_some : Option ℕ → Bool
is_some none = false
is_some (some c) = true

-- What a writer of net/http sends, from what it has sent.
abbrev sends : Option ℕ → List Call → Option ℕ
sends o [] = o
sends o (sets k v ∷ calls) = sends o calls
sends none (begins code ∷ calls) = sends (some code) calls
sends (some c) (begins code ∷ calls) = sends (some c) calls
sends none (writes b ∷ calls) = sends (some 200) calls
sends (some c) (writes b ∷ calls) = sends (some c) calls

added : (a b c n m : ℕ) → b ≡ a + n → c ≡ b + m → c ≡ a + (n + m)
added a b c n m h k = omega arith

zero_plus : (a b : ℕ) → b ≡ 0 + a → b ≡ a
zero_plus a b h = omega arith

module _ {W : Type 0} {wr : ResponseWriter W} {sent : W → Option ℕ} (http : IsHttp wr sent) where
  perform-sends :
      (calls : List Call) (begun : Bool) (w : W) (o : Option ℕ)
      → Proper begun calls
      → sent w ≡ o
      → sent (perform wr calls w).1 ≡ sends o calls
  perform-sends [] begun w o proper e = e
  perform-sends (sets k v ∷ calls) begun w o proper e =
      perform-sends calls begun _ o proper (http.header_kept k v w ∙ e)
  perform-sends (begins code ∷ calls) begun w none (first, final, proper) e =
      perform-sends calls true _ (some code) proper (http.first_header code w final e)
  perform-sends (begins code ∷ calls) begun w (some c) (first, final, proper) e =
      perform-sends calls true _ (some c) proper (http.later_header code c w e)
  perform-sends (writes b ∷ calls) begun w none proper e =
      perform-sends calls true _ (some 200) proper (http.first_write b w e)
  perform-sends (writes b ∷ calls) begun w (some c) proper e =
      perform-sends calls true _ (some c) proper (http.later_write b c w e)

  -- The recorder's own fields beside what was sent.
  abbrev Knows : Bool → ResponseRecorder W → Type 0
  Knows false rec = IsFresh http rec
  Knows true rec = IsTold http rec

  -- A write answers the bytes that the recorder adds to its own.
  counted :
      (rec : ResponseRecorder W) (x : (ℕ × Option Error) × W)
      → (count_bytes wr rec x).1.bytes ≡ rec.bytes + (count_bytes wr rec x).0.0
  counted rec ((n, e), w) = refl

  ensured : (rec : ResponseRecorder W) → (ensure_header wr rec).bytes ≡ rec.bytes
  unfolding write_header
  ensured rec = at rec.wrote_header
    where
      at : (b : Bool) → (if b then rec else write_header wr 200 rec).bytes ≡ rec.bytes
      at true = refl
      at false = refl

  write-bytes :
      (b : String) (rec : ResponseRecorder W)
      → ((recorder wr).write b rec).1.bytes ≡ rec.bytes + ((recorder wr).write b rec).0.0
  unfolding recorder write
  write-bytes b rec =
      counted (ensure_header wr rec) (wr.write b (ensure_header wr rec).response_writer)
      ∙ ap (λ n. n + ((recorder wr).write b rec).0.0) (ensured rec)

  Knows-sets :
      (begun : Bool) (k v : String) (rec : ResponseRecorder W)
      → Knows begun rec
      → Knows begun ((recorder wr).set_header k v rec)
  unfolding recorder
  Knows-sets false k v rec h = record {
    unsent = http.header_kept k v rec.response_writer ∙ h.unsent;
    initial = h.initial;
    no_header = h.no_header;
  }
  Knows-sets true k v rec h = record {
    told = http.header_kept k v rec.response_writer ∙ h.told;
    has_header = h.has_header;
  }

  Knows-writes :
      (begun : Bool) (b : String) (rec : ResponseRecorder W)
      → Knows begun rec
      → Knows true ((recorder wr).write b rec).1
  Knows-writes false b rec h = first_write-IsTold http b rec h
  Knows-writes true b rec h = write-IsTold http b rec h

  -- What the recorder says of the response is what was sent.
  record Reports (rec : ResponseRecorder W) : Type 0 where
    status_sent : rec.status ≡ final_status (sent rec.response_writer)
    header_sent : rec.wrote_header ≡ is_some (sent rec.response_writer)

  perform-bytes :
      (calls : List Call) (rec : ResponseRecorder W)
      → (perform (recorder wr) calls rec).1.bytes ≡ rec.bytes + (perform (recorder wr) calls rec).0
  unfolding recorder write_header
  perform-bytes [] rec = omega arith
  perform-bytes (sets k v ∷ calls) rec = perform-bytes calls _
  perform-bytes (begins code ∷ calls) rec = perform-bytes calls _
  perform-bytes (writes b ∷ calls) rec = added _ _ _ _ _ (write-bytes b rec) (perform-bytes calls _)

  told_at : (begun : Bool) (rec : ResponseRecorder W) → Knows begun rec → Reports rec
  told_at false rec h = record {
    status_sent = h.initial ∙ sym (ap final_status h.unsent);
    header_sent = h.no_header ∙ sym (ap is_some h.unsent);
  }
  told_at true rec h = record {
    status_sent = sym (ap final_status h.told);
    header_sent = h.has_header ∙ sym (ap is_some h.told);
  }

  perform-Reports :
      (calls : List Call) (begun : Bool) (rec : ResponseRecorder W)
      → Proper begun calls
      → Knows begun rec
      → Reports (perform (recorder wr) calls rec).1
  perform-Reports [] begun rec proper h = told_at begun rec h
  perform-Reports (sets k v ∷ calls) begun rec proper h =
      perform-Reports calls begun _ proper (Knows-sets begun k v rec h)
  perform-Reports (begins code ∷ calls) false rec (first, final, proper) h =
      perform-Reports calls true _ proper (write_header-IsTold http code rec final h)
  perform-Reports (begins code ∷ calls) true rec (first, final, proper) h =
      absurd (true≢false first)
  perform-Reports (writes b ∷ calls) begun rec proper h =
      perform-Reports calls true _ proper (Knows-writes begun b rec h)

module _ {W : Type 0} {wr : ResponseWriter W} {sent : W → Option ℕ} (http : IsHttp wr sent) where
  -- Around a writer of net/http that has sent no status: for every sequence of calls whose statuses
  -- are final (200 or more) and come before the response has begun (by a status or a write), the
  -- writer within a new response recorder sends the status that it sends without the recorder; the
  -- status of the recorder is the one that was sent, or 200 if none was; its flag says whether one
  -- was; and its bytes are those that the writes were answered to have written.
  pub recorder-tells :
      (calls : List Call) (w : W)
      → sent w ≡ none
      → Proper false calls
      → (let (n, rec) = perform (recorder wr) calls (new_recorder w) in
          (sent rec.response_writer ≡ sent (perform wr calls w).1)
          × (rec.status ≡ final_status (sent rec.response_writer))
          × (rec.wrote_header ≡ is_some (sent rec.response_writer))
          × (rec.bytes ≡ n))
  recorder-tells calls w unsent proper = (
    perform-sends {wr = recorder wr} {sent = sent_through sent} (recorder-IsHttp http) calls false
          (new_recorder w) none proper unsent
        ∙ sym (perform-sends http calls false w none proper unsent),
    reports.status_sent,
    reports.header_sent,
    zero_plus _ _ (perform-bytes http calls (new_recorder w)),
  )
    where
      reports : Reports http (perform (recorder wr) calls (new_recorder w)).1
      reports =
          perform-Reports http calls false (new_recorder w) proper
            (new_recorder-IsFresh http w unsent)
