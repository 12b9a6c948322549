-- ===== src/Api/Serve/Recorded.antt =====
-- The status under which internal/api/handler.go counts a response, against the one on the wire.
use consent_owner_resolver.Prelude.{
  ℕ, ◌≡◌, inl, inr, refl, sym, ap, ◌∙◌, false, Option, some, List, Bytes, str, ◌==◌, eq_refl, eqb,
  if◌then◌else◌, Result, ok, err, panicked, ok-injective,
}
use consent_owner_resolver.Prelude.Int.{ℤ}
use consent_owner_resolver.Go.Library.{Attempt}
use consent_owner_resolver.Api.Floats.{Floats}
use consent_owner_resolver.Api.Metrics.{Metrics, observe}
use consent_owner_resolver.Api.RequestId.{request_id, with_request_id}
use consent_owner_resolver.Api.Handler.{
  HttpRequest, Decoding, Payload, Handler, Shared, handle_resolve,
}
use consent_owner_resolver.Api.Serve.Statuses.{
  Fails, Ends, counted_status, serve_health-Ends, serve_metrics-Ends, serve_resolve-Ends,
}
use consent_owner_resolver.Api.Serve.Labels.{IsRoute}
use consent_owner_resolver.Prelude.Exec.{Exec}
use consent_owner_resolver.Api.Serve.{
  ResponseWriter, StatusRecorder, Arrival, serve_health, serve_metrics, serve_resolve, counted,
  instrument, request_id_header, dispatch, named_route, serve, route_resolve, route_health,
  route_metrics,
}
use consent_owner_resolver.Api.Serve.Sent.{
  IsHonest, final_status, AsSent, Sends, reply-Sends, serve_health-Sends, serve_metrics-Sends,
}

routes_differ :
    ((route_health == route_resolve) ≡ false)
    × ((route_metrics == route_resolve) ≡ false)
    × ((route_metrics == route_health) ≡ false)
unfolding str ◌==◌
routes_differ = (refl, refl, refl)

module _ {W S Fl : Type 0} (writer : ResponseWriter W) (sent : W → ℕ)
    (honest : IsHonest writer sent) (encode : Payload → Attempt Bytes) where
  module _ (quote : Bytes → Bytes) (fl : Floats Fl) where
    -- An answer has been counted under its status.
    Seen : Bytes → ℤ → Metrics Fl → Result W × Shared S Fl → Type 0
    Seen route elapsed m (ok w, s) =
        (n : Metrics Fl) × Fails m n
        × (s.metrics ≡ observe fl route (final_status writer sent w) elapsed n)
    Seen route elapsed m (err e, s) = Unit
    Seen route elapsed m (panicked, s) = Unit

    counted-Seen :
        (route : Bytes) (elapsed : ℤ) (m : Metrics Fl) (r : Result (StatusRecorder W) × Shared S Fl)
        → Ends (counted_status writer) m r
        → Sends writer sent honest encode r
        → Seen route elapsed m (counted writer encode quote fl route elapsed r)
    unfolding counted Seen Sends AsSent
    counted-Seen route elapsed m (ok t, s) ends sends = (
      s.metrics,
      ends.1,
      ap (λ n. observe fl route (if eqb n 0 then 200 else n) elapsed s.metrics) sends,
    )
    counted-Seen route elapsed m (err e, s) ends sends = tt
    counted-Seen route elapsed m (panicked, s) ends sends = tt

    instrument-Seen :
        (route : Bytes)
        (next : HttpRequest → StatusRecorder W → Exec (Shared S Fl) (StatusRecorder W))
        (a : Arrival W) (s : Shared S Fl)
        → sent a.writer ≡ 0
        → ((q : HttpRequest) (r : StatusRecorder W)
            → AsSent writer sent r
            → sent r.response_writer ≡ 0
            → Ends (counted_status writer) s.metrics (next q r s)
              × Sends writer sent honest encode (next q r s))
        → Seen route a.elapsed s.metrics (instrument writer encode quote fl route next a s)
    unfolding instrument AsSent
    instrument-Seen route next a s new both =
        let id = request_id a.random a.request.given_id in
        let blank = honest.sets request_id_header id a.writer ∙ new in
        let (ends, sends) =
          both (record a.request { context = with_request_id a.request.context id })
            (record { response_writer = writer.set request_id_header id a.writer; status = 0 })
            (sym blank) blank in
        counted-Seen route a.elapsed s.metrics _ ends sends

    module _ (digest : Bytes → Bytes) (decode : ℤ → Bytes → Decoding) (h : Handler S)
        (mux : List Bytes → Bytes → Option Bytes) (otherwise : HttpRequest → W → W) where
      dispatch-Seen :
          (route : Bytes) (a : Arrival W) (s : Shared S Fl)
          → sent a.writer ≡ 0
          → IsRoute route
          → Seen route a.elapsed s.metrics
              (dispatch writer encode quote fl digest decode h mux otherwise (some route) a s)
      unfolding dispatch serve_resolve AsSent
      dispatch-Seen route a s new (inl e) =
          rw (e, dispatch, eq_refl route_resolve)
            (instrument-Seen route_resolve (serve_resolve writer encode quote fl digest decode h) a
              s new
              (λ q r as_sent blank. (
                serve_resolve-Ends writer encode quote fl digest decode h q r s,
                reply-Sends writer sent honest encode r (handle_resolve quote digest h decode q s)
                    blank,
              )))
      dispatch-Seen route a s new (inr (inl e)) =
          rw (e, dispatch, routes_differ.0, eq_refl route_health)
            (instrument-Seen route_health (serve_health writer encode) a s new (λ q r as_sent blank.
              (
                serve_health-Ends writer encode q r s,
                serve_health-Sends writer sent honest encode q r s blank,
              )))
      dispatch-Seen route a s new (inr (inr e)) =
          rw (e, dispatch, routes_differ.1, routes_differ.2, eq_refl route_metrics)
            (instrument-Seen route_metrics (serve_metrics writer encode quote fl) a s new
              (λ q r as_sent blank. (
                serve_metrics-Ends writer encode quote fl q r s (as_sent ∙ blank),
                serve_metrics-Sends writer sent honest encode quote fl q r s as_sent blank,
              )))

      Seen-answer :
          (route : Bytes) (elapsed : ℤ) (m : Metrics Fl) (r : Result W × Shared S Fl) (w : W)
          → Seen route elapsed m r
          → r.0 ≡ ok w
          → (n : Metrics Fl) × Fails m n
            × (r.1.metrics ≡ observe fl route (final_status writer sent w) elapsed n)
      unfolding Seen
      Seen-answer route elapsed m (ok v, s) w h e =
          let (n, fails, seen) = h in
          (
            n,
            fails,
            seen
                ∙ ap (λ x. observe fl route (final_status writer sent x) elapsed n)
                    (ok-injective e),
          )
      Seen-answer route elapsed m (err x, s) w h e = cc
      Seen-answer route elapsed m (panicked, s) w h e = cc

      -- With a writer that sends a status once, as that of net/http does, and a new response: a request of
      -- one of the three routes that is answered is counted once, under its route and the status that its
      -- response has on the wire, with the time it took; besides, at most one failure is counted, and no
      -- other counter changes.
      pub serve-observe :
          (route : Bytes) (a : Arrival W) (s : Shared S Fl) (w : W)
          → sent a.writer ≡ 0
          → IsRoute route
          → named_route mux a ≡ some route
          → (serve writer encode quote fl digest decode h mux otherwise a s).0 ≡ ok w
          → (n : Metrics Fl) × Fails s.metrics n
            × ((serve writer encode quote fl digest decode h mux otherwise a s).1.metrics
                ≡ observe fl route (final_status writer sent w) a.elapsed n)
      unfolding serve
      serve-observe route a s w new known named answer =
          let r : Result W × Shared S Fl =
            dispatch writer encode quote fl digest decode h mux otherwise (named_route mux a) a s in
          Seen-answer route a.elapsed s.metrics r w (rw named (dispatch-Seen route a s new known))
            answer
