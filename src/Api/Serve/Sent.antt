-- ===== src/Api/Serve/Sent.antt =====
-- The statusRecorder of internal/api/handler.go, against the status that a response has on the wire.
use consent_owner_resolver.Prelude.{
  ℕ, ◌≡◌, inl, inr, sym, ap, ◌∙◌, Option, none, some, List, [], ◌∷◌, Bytes, str, ◌==◌, eqb,
  Bool-cases, if◌then◌else◌, Result, ok, err, panicked,
}
use consent_owner_resolver.Go.Library.{Attempt, done, failed}
use consent_owner_resolver.Api.Floats.{Floats}
use consent_owner_resolver.Api.Metrics.Exposition.{
  MetricsWriter, print, print_all, write_to, exposition,
}
use consent_owner_resolver.Api.Handler.{HttpRequest, Payload, health, Reply, Shared, write_error}
use consent_owner_resolver.Api.Serve.{
  ResponseWriter, StatusRecorder, write_header, set_header, write, encoded, write_json, challenged,
  reply, serve_health, serve_metrics, prometheus_content_type,
}

module _ {W : Type 0} (writer : ResponseWriter W) (sent : W → ℕ) where
  -- What a writer does to the status of a response, 0 while none is sent: it is sent once, and is 200
  -- for a body without one.
  pub record IsHonest : Type 0 where
    pub sets : (k v : Bytes) (w : W) → sent (writer.set k v w) ≡ sent w
    pub sends : (n : ℕ) (w : W) → sent w ≡ 0 → sent (writer.write_header n w) ≡ n
    pub writes :
        (b : Bytes) (w : W) → sent (writer.write b w).1 ≡ (if eqb (sent w) 0 then 200 else sent w)

  -- The status of a response whose handler is done.
  abbrev pub final_status : W → ℕ
  final_status w = if eqb (sent w) 0 then 200 else sent w

  unfoldable pub AsSent : StatusRecorder W → Type 0
  AsSent r = r.status ≡ sent r.response_writer

  module _ (honest : IsHonest) where
    set_header-AsSent :
        (k v : Bytes) (r : StatusRecorder W) → AsSent r → AsSent (set_header writer k v r)
    unfolding AsSent set_header
    set_header-AsSent k v r h = h ∙ sym (honest.sets k v r.response_writer)

    write-AsSent : (b : Bytes) (r : StatusRecorder W) → AsSent r → AsSent (write writer b r).1
    unfolding AsSent write
    write-AsSent b r h =
        ap (λ n. if eqb n 0 then 200 else n) h ∙ sym (honest.writes b r.response_writer)

    print-AsSent :
        (text : Bytes) (o : Option Bytes) (r : StatusRecorder W)
        → AsSent r
        → AsSent (print (write writer) text (record { w = r; failure = o })).w
    unfolding print
    print-AsSent text (some e) r h = h
    print-AsSent text none r h = write-AsSent text r h

    print_all-AsSent :
        (texts : List Bytes) (mw : MetricsWriter (StatusRecorder W))
        → AsSent mw.w
        → AsSent (print_all (write writer) texts mw).w
    unfolding print_all
    print_all-AsSent [] mw h = h
    print_all-AsSent (text ∷ texts) mw h =
        print_all-AsSent texts (print (write writer) text mw) (print-AsSent text mw.failure mw.w h)

    pub challenged-new :
        (o : Option Bytes) (r : StatusRecorder W)
        → sent r.response_writer ≡ 0
        → sent (challenged writer o r).response_writer ≡ 0
    unfolding challenged set_header
    challenged-new none r new = new
    challenged-new (some scheme) r new = honest.sets _ scheme r.response_writer ∙ new

    module _ (encode : Payload → Attempt Bytes) {S Fl : Type 0} where
      encoded-AsSent :
          (o : Attempt Bytes) (r : StatusRecorder W) (s : Shared S Fl)
          → AsSent r
          → AsSent (encoded writer encode o r s).0
      unfolding encoded
      encoded-AsSent (failed why) r s h = h
      encoded-AsSent (done b) r s h = write-AsSent b r h

      pub write_json-AsSent :
          (n : ℕ) (v : Payload) (r : StatusRecorder W) (s : Shared S Fl)
          → sent r.response_writer ≡ 0
          → AsSent (write_json writer encode n v r s).0
      unfolding write_json write_header set_header AsSent
      write_json-AsSent n v r s new =
          encoded-AsSent (encode v) _ s (sym (honest.sends n _ (honest.sets _ _ _ ∙ new)))

      -- An answer leaves a recorder whose status is the one sent.
      unfoldable pub Sends : Result (StatusRecorder W) × Shared S Fl → Type 0
      Sends (ok r, s) = AsSent r
      Sends (err e, s) = Unit
      Sends (panicked, s) = Unit

      pub reply-Sends :
          (r : StatusRecorder W) (out : Result Reply × Shared S Fl)
          → sent r.response_writer ≡ 0
          → Sends (reply writer encode r out)
      unfolding reply Sends
      reply-Sends r (ok out, s) new =
          write_json-AsSent out.status out.payload (challenged writer out.challenge r) s
            (challenged-new out.challenge r new)
      reply-Sends r (err e, s) new = tt
      reply-Sends r (panicked, s) new = tt

      pub serve_health-Sends :
          (q : HttpRequest) (r : StatusRecorder W) (s : Shared S Fl)
          → sent r.response_writer ≡ 0
          → Sends (serve_health writer encode q r s)
      unfolding serve_health Sends
      serve_health-Sends q r s new = write_json-AsSent 200 (health (str "ok")) r s new

      pub serve_metrics-Sends :
          (quote : Bytes → Bytes) (fl : Floats Fl) (q : HttpRequest) (r : StatusRecorder W)
          (s : Shared S Fl)
          → AsSent r
          → sent r.response_writer ≡ 0
          → Sends (serve_metrics writer encode quote fl q r s)
      unfolding serve_metrics write_error write_to Sends
      serve_metrics-Sends quote fl q r s h new = elim (Bool-cases (q.method == str "GET")) [
        | inr other ↦ rw (serve_metrics, other) (write_json-AsSent 405 _ r s new)
        | inl get ↦
            rw (serve_metrics, get)
              (print_all-AsSent (exposition quote fl s.metrics)
                (record {
                  w = set_header writer (str "Content-Type") prometheus_content_type r;
                  failure = none;
                })
                (set_header-AsSent (str "Content-Type") prometheus_content_type r h))
      ]
