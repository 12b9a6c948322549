-- ===== src/Api/Serve/Labels.antt =====
-- What a request leaves in the metrics, by internal/api/handler.go: the labels of the counters.
use consent_owner_resolver.Prelude.{
  ℕ, ◌≡◌, ◌⊎◌, inl, inr, refl, sym, ◌∙◌, true, false, Option, none, some, List, [], ◌∷◌, All, arith,
  Bytes, ◌==◌, eq_iff, Bool-cases, Result, ok, err, panicked,
}
use mathlib.Core.Path.{subst}
use consent_owner_resolver.Prelude.Exec.{Exec}
use consent_owner_resolver.Prelude.Int.{ℤ}
use consent_owner_resolver.Go.Library.{Attempt}
use consent_owner_resolver.Api.Floats.{Floats}
use consent_owner_resolver.Api.Metrics.{Metrics, observe, new_metrics}
use consent_owner_resolver.Api.Metrics.Bounds.{IsBounded, observe_failure-IsBounded}
use consent_owner_resolver.Api.Metrics.Counts.{count_request-All}
use consent_owner_resolver.Api.Handler.{HttpRequest, Decoding, Payload, Handler, Shared}
use consent_owner_resolver.Api.Serve.{
  ResponseWriter, StatusRecorder, Arrival, counted, instrument, serve_health, serve_metrics,
  serve_resolve, dispatch, named_route, serve, serve_all, route_resolve, route_health,
  route_metrics,
}
use consent_owner_resolver.Api.Serve.Statuses.{
  IsStatus, Fails, Ends, counted_status, serve_health-Ends, serve_metrics-Ends, serve_resolve-Ends,
}

abbrev pub IsRoute : Bytes → Type 0
IsRoute route = (route ≡ route_resolve) ⊎ (route ≡ route_health) ⊎ (route ≡ route_metrics)

-- Every label of the counters of requests is one of the three routes with one of the six statuses,
-- and the labels of the counters of failures are bounded in number.
pub record IsLabelled {Fl : Type 0} (m : Metrics Fl) : Type 0 where
  pub requests : All (λ e. IsRoute e.0.route × IsStatus e.0.status) m.requests
  pub failures : IsBounded m.failures

module _ {Fl : Type 0} (fl : Floats Fl) where
  -- A request of a route that has been answered: it has been observed once, with the status of its
  -- response, behind at most one failure. One that has not is not observed.
  abbrev pub Observed : {W S : Type 0} → Bytes → ℤ → Metrics Fl → Result W × Shared S Fl → Type 0
  Observed route elapsed m (ok w, s) =
      (status : ℕ) × IsStatus status
      × ((n : Metrics Fl) × Fails m n × (s.metrics ≡ observe fl route status elapsed n))
  Observed route elapsed m (err e, s) = Fails m s.metrics
  Observed route elapsed m (panicked, s) = Fails m s.metrics

  -- What a request does to the metrics, by the route that the multiplexer names for it.
  abbrev pub Leaves :
      {W S : Type 0} → Option Bytes → ℤ → Metrics Fl → Result W × Shared S Fl → Type 0
  Leaves none elapsed m r = r.1.metrics ≡ m
  Leaves (some route) elapsed m r =
      (IsRoute route × Observed route elapsed m r) ⊎ ((¬ IsRoute route) × (r.1.metrics ≡ m))

  pub Fails-IsLabelled : (m n : Metrics Fl) → Fails m n → IsLabelled m → IsLabelled n
  Fails-IsLabelled m n (inl same) h = rw same h
  Fails-IsLabelled m n (inr (class, more)) h = subst IsLabelled (sym more) (record {
    requests = h.requests;
    failures = observe_failure-IsBounded class m.failures h.failures;
  })

  pub observe-IsLabelled :
      (route : Bytes) (status : ℕ) (elapsed : ℤ) (m : Metrics Fl)
      → IsRoute route
      → IsStatus status
      → IsLabelled m
      → IsLabelled (observe fl route status elapsed m)
  unfolding observe
  observe-IsLabelled route status elapsed m r t h = record {
    requests =
        count_request-All (λ k. IsRoute k.route × IsStatus k.status)
          (record { route = route; status = status }) m.requests (r, t) h.requests;
    failures = h.failures;
  }

  Observed-IsLabelled :
      {W S : Type 0} (route : Bytes) (elapsed : ℤ) (m : Metrics Fl) (r : Result W × Shared S Fl)
      → IsRoute route
      → Observed route elapsed m r
      → IsLabelled m
      → IsLabelled r.1.metrics
  Observed-IsLabelled route elapsed m (ok w, s) known (status, t, found) h =
      let (n, fails, seen) = found in
      subst IsLabelled (sym seen)
        (observe-IsLabelled route status elapsed n known t (Fails-IsLabelled m n fails h))
  Observed-IsLabelled route elapsed m (err e, s) known fails h = Fails-IsLabelled m _ fails h
  Observed-IsLabelled route elapsed m (panicked, s) known fails h = Fails-IsLabelled m _ fails h

  Leaves-IsLabelled :
      {W S : Type 0} (o : Option Bytes) (elapsed : ℤ) (m : Metrics Fl) (r : Result W × Shared S Fl)
      → Leaves o elapsed m r
      → IsLabelled m
      → IsLabelled r.1.metrics
  Leaves-IsLabelled none elapsed m r same h = subst IsLabelled (sym same) h
  Leaves-IsLabelled (some route) elapsed m r (inl (known, seen)) h =
      Observed-IsLabelled route elapsed m r known seen h
  Leaves-IsLabelled (some route) elapsed m r (inr (unknown, same)) h = subst IsLabelled (sym same) h

  module _ {W S : Type 0} (writer : ResponseWriter W) (encode : Payload → Attempt Bytes)
      (quote digest : Bytes → Bytes) (decode : ℤ → Bytes → Decoding) (h : Handler S)
      (mux : List Bytes → Bytes → Option Bytes) (otherwise : HttpRequest → W → W) where
    counted-Observed :
        (route : Bytes) (elapsed : ℤ) (m : Metrics Fl) (r : Result (StatusRecorder W) × Shared S Fl)
        → Ends (counted_status writer) m r
        → Observed route elapsed m (counted writer encode quote fl route elapsed r)
    unfolding counted
    counted-Observed route elapsed m (ok t, s) (status, fails) =
        (counted_status writer t, status, (s.metrics, fails, refl))
    counted-Observed route elapsed m (err e, s) fails = fails
    counted-Observed route elapsed m (panicked, s) fails = fails

    instrument-Observed :
        (route : Bytes)
        (next : HttpRequest → StatusRecorder W → Exec (Shared S Fl) (StatusRecorder W))
        (a : Arrival W) (s : Shared S Fl)
        → ((q : HttpRequest) (r : StatusRecorder W)
            → r.status ≡ 0
            → Ends (counted_status writer) s.metrics (next q r s))
        → Observed route a.elapsed s.metrics (instrument writer encode quote fl route next a s)
    unfolding instrument
    instrument-Observed route next a s ends =
        counted-Observed route a.elapsed s.metrics _ (ends _ _ refl)

    instrument-Leaves :
        (known route : Bytes)
        (next : HttpRequest → StatusRecorder W → Exec (Shared S Fl) (StatusRecorder W))
        (a : Arrival W) (s : Shared S Fl)
        → (route == known) ≡ true
        → IsRoute known
        → ((q : HttpRequest) (r : StatusRecorder W)
            → r.status ≡ 0
            → Ends (counted_status writer) s.metrics (next q r s))
        → Leaves (some route) a.elapsed s.metrics (instrument writer encode quote fl known next a s)
    instrument-Leaves known route next a s e k ends =
        let same = (eq_iff route known).0 e in
        inl (rw same k, rw same (instrument-Observed known next a s ends))

    other-IsRoute :
        (route : Bytes)
        → (route == route_resolve) ≡ false
        → (route == route_health) ≡ false
        → (route == route_metrics) ≡ false
        → ¬ IsRoute route
    other-IsRoute route a b c (inl e) = cc (sym a ∙ (eq_iff route route_resolve).1 e)
    other-IsRoute route a b c (inr (inl e)) = cc (sym b ∙ (eq_iff route route_health).1 e)
    other-IsRoute route a b c (inr (inr e)) = cc (sym c ∙ (eq_iff route route_metrics).1 e)

    dispatch-Leaves :
        (o : Option Bytes) (a : Arrival W) (s : Shared S Fl)
        → Leaves o a.elapsed s.metrics
            (dispatch writer encode quote fl digest decode h mux otherwise o a s)
    unfolding dispatch
    dispatch-Leaves none a s = refl
    dispatch-Leaves (some route) a s = elim (Bool-cases (route == route_resolve)) [
      | inl resolves ↦
          rw (dispatch, resolves)
            (instrument-Leaves route_resolve route
              (serve_resolve writer encode quote fl digest decode h) a s resolves (inl refl)
              (λ q r new. serve_resolve-Ends writer encode quote fl digest decode h q r s))
      | inr other ↦ elim (Bool-cases (route == route_health)) [
        | inl healthy ↦
            rw (dispatch, other, healthy)
              (instrument-Leaves route_health route (serve_health writer encode) a s healthy
                (inr (inl refl)) (λ q r new. serve_health-Ends writer encode q r s))
        | inr unhealthy ↦ elim (Bool-cases (route == route_metrics)) [
          | inl scraped ↦
              rw (dispatch, other, unhealthy, scraped)
                (instrument-Leaves route_metrics route (serve_metrics writer encode quote fl) a s
                  scraped (inr (inr refl))
                  (λ q r new. serve_metrics-Ends writer encode quote fl q r s new))
          | inr unknown ↦
              rw (dispatch, other, unhealthy, unknown)
                (inr (other-IsRoute route other unhealthy unknown, refl))
        ]
      ]
    ]

    pub serve-Leaves :
        (a : Arrival W) (s : Shared S Fl)
        → Leaves
            (named_route mux a)
            a.elapsed
            s.metrics
            (serve writer encode quote fl digest decode h mux otherwise a s)
    unfolding serve
    serve-Leaves a s = dispatch-Leaves (named_route mux a) a s

    -- Whatever requests are served, every label of the counters of requests is one of the three
    -- routes with one of six statuses, and the counters of failures have a bounded number of labels,
    -- if this is so at the start.
    pub serve_all-IsLabelled :
        (arrivals : List (Arrival W)) (s : Shared S Fl)
        → IsLabelled s.metrics
        → IsLabelled
            (serve_all writer encode quote fl digest decode h mux otherwise arrivals s).metrics
    unfolding serve_all
    serve_all-IsLabelled [] s labelled = labelled
    serve_all-IsLabelled (a ∷ arrivals) s labelled =
        serve_all-IsLabelled arrivals _
          (Leaves-IsLabelled (named_route mux a) a.elapsed s.metrics _ (serve-Leaves a s) labelled)

pub new_metrics-IsLabelled : {Fl : Type 0} → IsLabelled {Fl = Fl} new_metrics
unfolding new_metrics
new_metrics-IsLabelled = record { requests = tt; failures = inl (omega arith) }
