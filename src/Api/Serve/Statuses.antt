-- ===== src/Api/Serve/Statuses.antt =====
-- The routes of internal/api/handler.go: the statuses that they answer with, and what they do to the
-- metrics.
use consent_owner_resolver.Prelude.{
  ℕ, ◌≡◌, ◌⊎◌, inl, inr, refl, ap, ◌∙◌, Option, none, some, List, [], ◌∷◌, arith, Bytes, str, ◌==◌,
  eqb, Bool-cases, if◌then◌else◌, Result, ok, err, panicked,
}
use consent_owner_resolver.Prelude.Int.{ℤ}
use consent_owner_resolver.Go.Library.{Attempt, done, failed}
use consent_owner_resolver.Types.{ResolveRequest, ResolveResult}
use consent_owner_resolver.Api.Floats.{Floats}
use consent_owner_resolver.Api.Logging.{error_class}
use consent_owner_resolver.Api.Metrics.{Metrics, observe_failure}
use consent_owner_resolver.Api.Metrics.Exposition.{
  MetricsWriter, print, print_all, write_to, exposition,
}
use consent_owner_resolver.Api.Handler.{
  HttpRequest, Decoding, decoded, too_large, invalid, Payload, health, Reply, Handler, Shared,
  write_error, authorized, replied, on_decoded, handle_resolve,
}
use consent_owner_resolver.Api.Serve.{
  ResponseWriter, StatusRecorder, write_header, set_header, write, logged, encoded, write_json,
  challenged, reply, serve_health, serve_metrics, serve_resolve, prometheus_content_type,
}

-- The statuses that are answered.
abbrev pub IsStatus : ℕ → Type 0
IsStatus n = (n ≡ 200) ⊎ (n ≡ 400) ⊎ (n ≡ 401) ⊎ (n ≡ 405) ⊎ (n ≡ 413) ⊎ (n ≡ 422)

-- At most one failure is counted, and nothing else.
abbrev pub Fails : {Fl : Type 0} → Metrics Fl → Metrics Fl → Type 0
Fails m n =
    (n ≡ m) ⊎ ((class : Bytes) × (n ≡ record m { failures = observe_failure class m.failures }))

module _ {S Fl : Type 0} where
  -- What is known of the outcome of a call, against the metrics before it.
  abbrev pub Ends : {A : Type 0} → (A → ℕ) → Metrics Fl → Result A × Shared S Fl → Type 0
  Ends status m (ok a, s) = IsStatus (status a) × Fails m s.metrics
  Ends status m (err e, s) = Fails m s.metrics
  Ends status m (panicked, s) = Fails m s.metrics

abbrev pub status_of : Reply → ℕ
status_of r = r.status

module _ (quote digest : Bytes → Bytes) {S Fl : Type 0} (h : Handler S) where
  replied-Ends :
      (q : HttpRequest) (req : ResolveRequest) (m : Metrics Fl) (log : List Bytes)
      (r : Result ResolveResult × S)
      → Ends {S = S} status_of m (replied quote digest h q req m log r)
  unfolding replied
  replied-Ends q req m log (ok out, t) = (inl refl, inl refl)
  replied-Ends q req m log (err e, t) = (
    elim (Bool-cases e.bad_request) [
      | inl bad ↦ rw bad (inr (inl refl))
      | inr other ↦ rw other (inr (inr (inr (inr (inr refl)))))
    ],
    inr (error_class (some e), refl),
  )
  replied-Ends q req m log (panicked, t) = inl refl

  on_decoded-Ends :
      (q : HttpRequest) (d : Decoding) (s : Shared S Fl)
      → Ends status_of s.metrics (on_decoded quote digest h q d s)
  unfolding on_decoded
  on_decoded-Ends q (decoded req) s = replied-Ends q req s.metrics s.log (h.resolver req s.facade)
  on_decoded-Ends q too_large s = (inr (inr (inr (inr (inl refl)))), inl refl)
  on_decoded-Ends q (invalid why) s = (inr (inl refl), inl refl)

  pub handle_resolve-Ends :
      (decode : ℤ → Bytes → Decoding) (q : HttpRequest) (s : Shared S Fl)
      → Ends status_of s.metrics (handle_resolve quote digest h decode q s)
  unfolding handle_resolve
  handle_resolve-Ends decode q s = elim (Bool-cases (q.method == str "POST")) [
    | inr other ↦ rw (handle_resolve, other) (inr (inr (inr (inl refl))), inl refl)
    | inl post ↦ elim (Bool-cases (authorized h.auth_token q.authorization)) [
      | inr refused ↦ rw (handle_resolve, post, refused) (inr (inr (inl refl)), inl refl)
      | inl admitted ↦
          rw (handle_resolve, post, admitted) (on_decoded-Ends q (decode h.max_body_bytes q.body) s)
    ]
  ]

module _ {W : Type 0} (writer : ResponseWriter W) where
  -- The status that is counted for a response.
  abbrev pub counted_status : StatusRecorder W → ℕ
  counted_status r = if eqb r.status 0 then 200 else r.status

  pub logged-metrics :
      {S Fl : Type 0} (prefix : Bytes) (o : Option Bytes) (s : Shared S Fl)
      → (logged writer prefix o s).metrics ≡ s.metrics
  unfolding logged
  logged-metrics prefix none s = refl
  logged-metrics prefix (some e) s = refl

  write-status :
      (b : Bytes) (r : StatusRecorder W) → counted_status (write writer b r).1 ≡ counted_status r
  unfolding write
  write-status b r = ground arith

  print-status :
      (text : Bytes) (o : Option Bytes) (r : StatusRecorder W)
      → counted_status (print (write writer) text (record { w = r; failure = o })).w
        ≡ counted_status r
  unfolding print
  print-status text (some e) r = refl
  print-status text none r = write-status text r

  print_all-status :
      (texts : List Bytes) (mw : MetricsWriter (StatusRecorder W))
      → counted_status (print_all (write writer) texts mw).w ≡ counted_status mw.w
  unfolding print_all
  print_all-status [] mw = refl
  print_all-status (text ∷ texts) mw =
      print_all-status texts (print (write writer) text mw) ∙ print-status text mw.failure mw.w

  -- The response to a scrape has the status 200, also where its writing fails.
  pub exposed-status :
      (quote : Bytes → Bytes) {Fl : Type 0} (fl : Floats Fl) (r : StatusRecorder W) (m : Metrics Fl)
      → r.status ≡ 0
      → counted_status
          (write_to
            (write writer)
            quote
            fl
            m
            (set_header writer (str "Content-Type") prometheus_content_type r)).1
        ≡ 200
  unfolding write_to set_header
  exposed-status quote fl r m new =
      print_all-status (exposition quote fl m) (record {
        w = set_header writer (str "Content-Type") prometheus_content_type r;
        failure = none;
      })
      ∙ ap (λ n. if eqb n 0 then 200 else n) new

  module _ (encode : Payload → Attempt Bytes) {S Fl : Type 0} where
    encoded-status :
        (o : Attempt Bytes) (r : StatusRecorder W) (s : Shared S Fl)
        → (counted_status (encoded writer encode o r s).0 ≡ counted_status r)
          × ((encoded writer encode o r s).1.metrics ≡ s.metrics)
    unfolding encoded
    encoded-status (failed why) r s =
        (refl, logged-metrics (str "[owner-resolver] write response: ") (some why) s)
    encoded-status (done b) r s = (
      write-status b r,
      logged-metrics (str "[owner-resolver] write response: ") (write writer b r).0 s,
    )

    -- A JSON response has the status it is given, and the metrics stay.
    pub write_json-status :
        (status : ℕ) (v : Payload) (r : StatusRecorder W) (s : Shared S Fl)
        → IsStatus status
        → (counted_status (write_json writer encode status v r s).0 ≡ status)
          × ((write_json writer encode status v r s).1.metrics ≡ s.metrics)
    unfolding write_json write_header
    write_json-status status v r s h =
        let sent =
          write_header writer status
            (set_header writer (str "Content-Type") (str "application/json") r) in
        let (same, kept) = encoded-status (encode v) sent s in (same ∙ nonzero status h, kept)
      where
        nonzero : (n : ℕ) → IsStatus n → (if eqb n 0 then 200 else n) ≡ n
        nonzero n h = ground arith

    reply-Ends :
        (m : Metrics Fl) (r : StatusRecorder W) (out : Result Reply × Shared S Fl)
        → Ends status_of m out
        → Ends counted_status m (reply writer encode r out)
    unfolding reply
    reply-Ends m r (ok out, s) h =
        let (same, kept) =
          write_json-status out.status out.payload (challenged writer out.challenge r) s h.0 in
        (rw same h.0, rw kept h.1)
    reply-Ends m r (err e, s) h = h
    reply-Ends m r (panicked, s) h = h

    pub serve_health-Ends :
        (q : HttpRequest) (r : StatusRecorder W) (s : Shared S Fl)
        → Ends counted_status s.metrics (serve_health writer encode q r s)
    unfolding serve_health
    serve_health-Ends q r s =
        let (same, kept) = write_json-status 200 (health (str "ok")) r s (inl refl) in
        (inl same, inl kept)

    module _ (quote : Bytes → Bytes) (fl : Floats Fl) where
      pub serve_metrics-Ends :
          (q : HttpRequest) (r : StatusRecorder W) (s : Shared S Fl)
          → r.status ≡ 0
          → Ends counted_status s.metrics (serve_metrics writer encode quote fl q r s)
      unfolding serve_metrics write_error
      serve_metrics-Ends q r s new = elim (Bool-cases (q.method == str "GET")) [
        | inr other ↦
            let refusal = write_error 405 (str "only GET is allowed") in
            let (same, kept) =
              write_json-status 405 refusal.payload r s (inr (inr (inr (inl refl)))) in
            rw (serve_metrics, other) ((inr (inr (inr (inl same)))), inl kept)
        | inl get ↦
            rw (serve_metrics, get)
              (
                inl (exposed-status quote fl r s.metrics new),
                inl (logged-metrics (str "[owner-resolver] write metrics: ") _ s),
              )
      ]

      module _ (digest : Bytes → Bytes) (decode : ℤ → Bytes → Decoding) (h : Handler S) where
        pub serve_resolve-Ends :
            (q : HttpRequest) (r : StatusRecorder W) (s : Shared S Fl)
            → Ends counted_status s.metrics
                (serve_resolve writer encode quote fl digest decode h q r s)
        unfolding serve_resolve
        serve_resolve-Ends q r s =
            reply-Ends s.metrics r (handle_resolve quote digest h decode q s)
              (handle_resolve-Ends quote digest h decode q s)
