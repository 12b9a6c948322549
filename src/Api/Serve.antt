-- ===== src/Api/Serve.antt =====
-- internal/api/handler.go: the routes behind their instrumentation. The writer of a response, the
-- encoding of a value as JSON and the multiplexer are parameters.
pub mod Statuses
pub mod Labels
pub mod Totals
pub mod Sent
pub mod Recorded
pub mod Refused
use consent_owner_resolver.Prelude.{
  ℕ, zero, suc, Bool, true, false, not, Option, none, some, List, [], ◌∷◌, ◌++◌, Bytes, str, ◌==◌,
  eqb, if◌then◌else◌, Error, Result, ok, err, panicked,
}
use consent_owner_resolver.Prelude.Exec.{Exec}
use consent_owner_resolver.Prelude.Int.{ℤ}
use consent_owner_resolver.Go.Library.{Attempt, done, failed}
use consent_owner_resolver.Api.Floats.{Floats}
use consent_owner_resolver.Api.Metrics.{Metrics, observe}
use consent_owner_resolver.Api.Metrics.Exposition.{write_to}
use consent_owner_resolver.Api.RequestId.{request_id, with_request_id}
use consent_owner_resolver.Api.Handler.{
  HttpRequest, Decoding, Payload, health, Reply, Handler, Shared, write_error, handle_resolve,
}

abbrev pub route_resolve : Bytes
route_resolve = str "/resolve"

abbrev pub route_health : Bytes
route_health = str "/health"

abbrev pub route_metrics : Bytes
route_metrics = str "/metrics"

abbrev pub prometheus_content_type : Bytes
prometheus_content_type = str "text/plain; version=0.0.4; charset=utf-8"

abbrev pub request_id_header : Bytes
request_id_header = str "X-Request-Id"

-- `http.ResponseWriter`, with `set` for `Header().Set`.
pub record ResponseWriter (W : Type 0) : Type 0 where
  pub set : Bytes → Bytes → W → W
  pub write_header : ℕ → W → W
  pub write : Bytes → W → Option Bytes × W

-- The status is 0 until one is written.
pub record StatusRecorder (W : Type 0) : Type 0 where
  pub response_writer : W
  pub status : ℕ

-- A request, with what its handling takes from outside: the random bytes of an id, the time that it takes, and
-- the writer of its response.
pub record Arrival (W : Type 0) : Type 0 where
  pub request : HttpRequest
  pub random : Option Bytes
  pub elapsed : ℤ
  pub writer : W

-- The route that the multiplexer names for a request, out of those that are registered.
abbrev pub named_route :
    {W : Type 0} → (List Bytes → Bytes → Option Bytes) → Arrival W → Option Bytes
named_route mux a = mux (route_resolve ∷ route_health ∷ route_metrics ∷ []) a.request.path

module _ {W : Type 0} (writer : ResponseWriter W) where
  unfoldable pub set_header : Bytes → Bytes → StatusRecorder W → StatusRecorder W
  set_header key value r = record r { response_writer = writer.set key value r.response_writer }

  unfoldable pub write_header : ℕ → StatusRecorder W → StatusRecorder W
  write_header status r = record {
    response_writer = writer.write_header status r.response_writer;
    status = status;
  }

  -- A write without a status is one with the status 200.
  unfoldable pub write : Bytes → StatusRecorder W → Option Bytes × StatusRecorder W
  write b r =
      let (failure, w) = writer.write b r.response_writer in
      (failure, record { response_writer = w; status = if eqb r.status 0 then 200 else r.status })

  unfoldable pub challenged : Option Bytes → StatusRecorder W → StatusRecorder W
  unfolding set_header
  challenged none r = r
  challenged (some scheme) r = set_header (str "WWW-Authenticate") scheme r

  -- A failure is logged.
  unfoldable pub logged : {S Fl : Type 0} → Bytes → Option Bytes → Shared S Fl → Shared S Fl
  logged prefix none s = s
  logged prefix (some e) s = record s { log = (prefix ++ e) ∷ s.log }

  module _ (encode : Payload → Attempt Bytes) {S Fl : Type 0} where
    unfoldable pub encoded :
        Attempt Bytes → StatusRecorder W → Shared S Fl → StatusRecorder W × Shared S Fl
    unfolding write logged
    encoded (failed why) r s = (r, logged (str "[owner-resolver] write response: ") (some why) s)
    encoded (done b) r s =
        let (failure, t) = write b r in
        (t, logged (str "[owner-resolver] write response: ") failure s)

    unfoldable pub write_json :
        ℕ → Payload → StatusRecorder W → Shared S Fl → StatusRecorder W × Shared S Fl
    unfolding encoded write_header set_header
    write_json status v r s =
        encoded (encode v)
          (write_header status (set_header (str "Content-Type") (str "application/json") r)) s

    -- A reply of the route /resolve, written.
    unfoldable pub reply :
        StatusRecorder W → Result Reply × Shared S Fl → Result (StatusRecorder W) × Shared S Fl
    unfolding write_json challenged
    reply r (ok out, s) =
        let (t, u) = write_json out.status out.payload (challenged out.challenge r) s in (ok t, u)
    reply r (err e, s) = (err e, s)
    reply r (panicked, s) = (panicked, s)

    unfoldable pub serve_health :
        HttpRequest → StatusRecorder W → Exec (Shared S Fl) (StatusRecorder W)
    unfolding write_json
    serve_health q r s = let (t, u) = write_json 200 (health (str "ok")) r s in (ok t, u)

    module _ (quote : Bytes → Bytes) (fl : Floats Fl) where
      unfoldable pub serve_metrics :
          HttpRequest → StatusRecorder W → Exec (Shared S Fl) (StatusRecorder W)
      unfolding write_json write_error set_header write write_to logged
      serve_metrics q r s =
          if not (q.method == str "GET")
          then (let refusal = write_error 405 (str "only GET is allowed") in
              let (t, u) = write_json refusal.status refusal.payload r s in (ok t, u))
          else (let (failure, t) =
                write_to write quote fl s.metrics
                  (set_header (str "Content-Type") prometheus_content_type r) in
              (ok t, logged (str "[owner-resolver] write metrics: ") failure s))

      -- Behind the handler: what has been answered is counted.
      unfoldable pub counted :
          Bytes → ℤ → Result (StatusRecorder W) × Shared S Fl → Result W × Shared S Fl
      unfolding observe
      counted route elapsed (ok r, s) = (
        ok r.response_writer,
        record s {
          metrics = observe fl route (if eqb r.status 0 then 200 else r.status) elapsed s.metrics;
        },
      )
      counted route elapsed (err e, s) = (err e, s)
      counted route elapsed (panicked, s) = (panicked, s)

      -- `instrument`.
      unfoldable pub instrument :
          Bytes
          → (HttpRequest → StatusRecorder W → Exec (Shared S Fl) (StatusRecorder W))
          → Arrival W
          → Exec (Shared S Fl) W
      unfolding counted request_id with_request_id
      instrument route next a s =
          let id = request_id a.random a.request.given_id in
          let w = writer.set request_id_header id a.writer in
          counted route a.elapsed (
            next (record a.request { context = with_request_id a.request.context id })
              (record { response_writer = w; status = 0 }) s)

      module _ (digest : Bytes → Bytes) (decode : ℤ → Bytes → Decoding) (h : Handler S) where
        unfoldable pub serve_resolve :
            HttpRequest → StatusRecorder W → Exec (Shared S Fl) (StatusRecorder W)
        unfolding reply handle_resolve
        serve_resolve q r s = reply r (handle_resolve quote digest h decode q s)

        -- The multiplexer answers the requests that no route takes itself.
        module _ (mux : List Bytes → Bytes → Option Bytes) (otherwise : HttpRequest → W → W) where
          unfoldable pub dispatch : Option Bytes → Arrival W → Exec (Shared S Fl) W
          unfolding instrument serve_resolve serve_health serve_metrics
          dispatch none a s = (ok (otherwise a.request a.writer), s)
          dispatch (some route) a s =
              if route == route_resolve
              then instrument route_resolve serve_resolve a s
              else if route == route_health
              then instrument route_health serve_health a s
              else if route == route_metrics
              then instrument route_metrics serve_metrics a s
              else (ok (otherwise a.request a.writer), s)

          -- The handler that `NewHandler` returns.
          unfoldable pub serve : Arrival W → Exec (Shared S Fl) W
          unfolding dispatch
          serve a s = dispatch (named_route mux a) a s

          -- Requests one after the other; one that panics leaves the next ones to be served.
          unfoldable pub serve_all : List (Arrival W) → Shared S Fl → Shared S Fl
          unfolding serve
          serve_all [] s = s
          serve_all (a ∷ arrivals) s = serve_all arrivals (serve a s).1
