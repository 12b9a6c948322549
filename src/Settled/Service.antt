-- ===== src/Settled/Service.antt =====
-- The service of internal/api/handler.go on a resolver that internal/resolver/config.go compiles: its
-- answers, and what it counts.
use consent_owner_resolver.Prelude.{
  ℕ, ◌+◌, ◌<◌, ◌^◌, ◌≡◌, inl, inr, refl, ◌∙◌, true, Option, none, some, List, [], ◌∷◌, arith, Bytes,
  str, ◌==◌, length, Bool-cases, if◌then◌else◌, Result, ok, err, panicked,
}
use consent_owner_resolver.Prelude.Exec.{Exec}
use consent_owner_resolver.Prelude.Int.{ℤ}
use consent_owner_resolver.Go.Library.{Library, Regexp, Attempt, done}
use consent_owner_resolver.Types.{ResolveRequest, ResolveResult}
use consent_owner_resolver.RawConfig.{RawConfig}
use consent_owner_resolver.Contract.Client.{Network}
use consent_owner_resolver.Cache.{Facade}
use consent_owner_resolver.Rules.{ConfigResolver}
use consent_owner_resolver.Resolve.{resolve}
use consent_owner_resolver.Config.{compile_config}
use consent_owner_resolver.Api.Floats.{Floats}
use consent_owner_resolver.Api.Metrics.{Metrics, new_metrics, duration_buckets}
use consent_owner_resolver.Api.Metrics.Counts.{total}
use consent_owner_resolver.Api.Metrics.Consistency.{IsAscending}
use consent_owner_resolver.Api.Handler.{
  HttpRequest, Decoding, decoded, too_large, invalid, Payload, Options, Reply, Handler, Shared,
  new_handler, authorized, replied, on_decoded, handle_resolve,
}
use consent_owner_resolver.Api.Serve.{
  ResponseWriter, StatusRecorder, Arrival, reply, serve_health, serve_metrics, serve_resolve,
  counted, instrument, dispatch, named_route, serve, serve_all, route_resolve, route_health,
  route_metrics,
}
use consent_owner_resolver.Api.Serve.Labels.{IsRoute}
use consent_owner_resolver.Api.Serve.Totals.{is_ok, is_named, answered, serve_all-counts}
use consent_owner_resolver.Settled.{Settles}
use consent_owner_resolver.Settled.Leaves.{IsRegexp}
use consent_owner_resolver.Settled.Rules.{resolve-Settles}

-- How many of the requests are for a route.
unfoldable pub asked :
    {W : Type 0} → (List Bytes → Bytes → Option Bytes) → Bytes → List (Arrival W) → ℕ
asked mux route [] = 0
asked mux route (a ∷ arrivals) =
    let rest = asked mux route arrivals in
    if is_named (named_route mux a) route then rest + 1 else rest

module _ (quote digest : Bytes → Bytes) {S Fl : Type 0} (h : Handler S)
    (settles : (req : ResolveRequest) (s : S) → Settles (h.resolver req s).0) where
  replied-ok :
      (q : HttpRequest) (req : ResolveRequest) (m : Metrics Fl) (log : List Bytes)
      (r : Result ResolveResult × S)
      → Settles r.0
      → is_ok (replied quote digest h q req m log r).0 ≡ true
  unfolding replied
  replied-ok q req m log (ok out, t) fine = refl
  replied-ok q req m log (err e, t) fine = refl
  replied-ok q req m log (panicked, t) fine = absurd fine

  on_decoded-ok :
      (q : HttpRequest) (d : Decoding) (s : Shared S Fl)
      → is_ok (on_decoded quote digest h q d s).0 ≡ true
  unfolding on_decoded
  on_decoded-ok q (decoded req) s =
      replied-ok q req s.metrics s.log (h.resolver req s.facade) (settles req s.facade)
  on_decoded-ok q too_large s = refl
  on_decoded-ok q (invalid why) s = refl

  handle_resolve-ok :
      (decode : ℤ → Bytes → Decoding) (q : HttpRequest) (s : Shared S Fl)
      → is_ok (handle_resolve quote digest h decode q s).0 ≡ true
  unfolding handle_resolve
  handle_resolve-ok decode q s = elim (Bool-cases (q.method == str "POST")) [
    | inr other ↦ rw (handle_resolve, other) refl
    | inl post ↦ elim (Bool-cases (authorized h.auth_token q.authorization)) [
      | inr refused ↦ rw (handle_resolve, post, refused) refl
      | inl admitted ↦
          rw (handle_resolve, post, admitted) (on_decoded-ok q (decode h.max_body_bytes q.body) s)
    ]
  ]

  module _ {W : Type 0} (writer : ResponseWriter W) (encode : Payload → Attempt Bytes)
      (fl : Floats Fl) (decode : ℤ → Bytes → Decoding) (mux : List Bytes → Bytes → Option Bytes)
      (otherwise : HttpRequest → W → W) where
    reply-ok :
        (r : StatusRecorder W) (out : Result Reply × Shared S Fl)
        → is_ok out.0 ≡ true
        → is_ok (reply writer encode r out).0 ≡ true
    unfolding reply
    reply-ok r (ok out, s) fine = refl
    reply-ok r (err e, s) fine = fine
    reply-ok r (panicked, s) fine = fine

    counted-ok :
        (route : Bytes) (elapsed : ℤ) (r : Result (StatusRecorder W) × Shared S Fl)
        → is_ok r.0 ≡ true
        → is_ok (counted writer encode quote fl route elapsed r).0 ≡ true
    unfolding counted
    counted-ok route elapsed (ok r, s) fine = refl
    counted-ok route elapsed (err e, s) fine = fine
    counted-ok route elapsed (panicked, s) fine = fine

    instrument-ok :
        (route : Bytes)
        (next : HttpRequest → StatusRecorder W → Exec (Shared S Fl) (StatusRecorder W))
        (a : Arrival W) (s : Shared S Fl)
        → ((q : HttpRequest) (r : StatusRecorder W) → is_ok (next q r s).0 ≡ true)
        → is_ok (instrument writer encode quote fl route next a s).0 ≡ true
    unfolding instrument
    instrument-ok route next a s fine = counted-ok route a.elapsed _ (fine _ _)

    serve_metrics-ok :
        (q : HttpRequest) (r : StatusRecorder W) (s : Shared S Fl)
        → is_ok (serve_metrics writer encode quote fl q r s).0 ≡ true
    unfolding serve_metrics
    serve_metrics-ok q r s = elim (Bool-cases (q.method == str "GET")) [
      | inl get ↦ rw (serve_metrics, get) refl
      | inr other ↦ rw (serve_metrics, other) refl
    ]

    dispatch-ok :
        (o : Option Bytes) (a : Arrival W) (s : Shared S Fl)
        → is_ok (dispatch writer encode quote fl digest decode h mux otherwise o a s).0 ≡ true
    unfolding dispatch serve_resolve serve_health
    dispatch-ok none a s = refl
    dispatch-ok (some route) a s = elim (Bool-cases (route == route_resolve)) [
      | inl resolves ↦
          rw (dispatch, resolves)
            (instrument-ok route_resolve (serve_resolve writer encode quote fl digest decode h) a s
              (λ q r. reply-ok r _ (handle_resolve-ok decode q s)))
      | inr other ↦ elim (Bool-cases (route == route_health)) [
        | inl healthy ↦
            rw (dispatch, other, healthy)
              (instrument-ok route_health (serve_health writer encode) a s (λ q r. refl))
        | inr unhealthy ↦ elim (Bool-cases (route == route_metrics)) [
          | inl scraped ↦
              rw (dispatch, other, unhealthy, scraped)
                (instrument-ok route_metrics (serve_metrics writer encode quote fl) a s
                  (λ q r. serve_metrics-ok q r s))
          | inr unknown ↦ rw (dispatch, other, unhealthy, unknown) refl
        ]
      ]
    ]

    serve-ok :
        (a : Arrival W) (s : Shared S Fl)
        → is_ok (serve writer encode quote fl digest decode h mux otherwise a s).0 ≡ true
    unfolding serve
    serve-ok a s = dispatch-ok (named_route mux a) a s

    module _ (ascending : IsAscending fl (duration_buckets fl)) where
      answered-asked :
          (route : Bytes) (arrivals : List (Arrival W)) (s : Shared S Fl)
          → answered fl ascending writer encode quote digest decode h mux otherwise route arrivals s
            ≡ asked mux route arrivals
      unfolding answered asked
      answered-asked route [] s = refl
      answered-asked route (a ∷ arrivals) s = ground (
        arith,
        serve-ok a s,
        answered-asked route arrivals
            (serve writer encode quote fl digest decode h mux otherwise a s).1,
      )

module _ (lib : Library) (digest : Bytes → Bytes) {W V Fl : Type 0} (net : Network V)
    (writer : ResponseWriter W) (encode : Payload → Attempt Bytes) (fl : Floats Fl)
    (decode : ℤ → Bytes → Decoding) (mux : List Bytes → Bytes → Option Bytes)
    (otherwise : HttpRequest → W → W) where
  -- The service on a resolver that is compiled from a configuration, from its start and for fewer
  -- than 2 ^ 64 requests, one after the other, where regular expressions give a text for each of their
  -- groups, and the bounds of the buckets ascend: the counters of each of the three routes, over all
  -- statuses, add up to the number of its requests, so that every one of them is answered and counted.
  pub serve_all_complete :
      (raw : RawConfig) (r : ConfigResolver (Facade V)) (opts : Options)
      (arrivals : List (Arrival W)) (facade : Facade V) (log : List Bytes) (route : Bytes)
      → ((p : Bytes) (re : Regexp) → lib.compile p ≡ done re → IsRegexp re)
      → IsAscending fl (duration_buckets fl)
      → compile_config lib net raw ≡ ok r
      → length arrivals < 2 ^ 64
      → IsRoute route
      → let start : Shared (Facade V) Fl = record {
        facade = facade;
        metrics = new_metrics;
        log = log;
      } in
        total route
          (serve_all writer encode lib.quote fl digest decode
            (new_handler (resolve lib r) opts)
            mux
            otherwise
            arrivals
            start).metrics.requests
        ≡ asked mux route arrivals
  unfolding new_handler
  serve_all_complete raw r opts arrivals facade log route regexps ascending h few known =
      let handler = new_handler (resolve lib r) opts in
      (serve_all-counts fl ascending writer encode lib.quote digest decode handler mux otherwise
        arrivals facade log route few known).1
      ∙ answered-asked lib.quote digest handler (resolve-Settles lib net raw r regexps h) writer
          encode fl decode mux otherwise ascending route arrivals _
