-- ===== src/Api/Threads.antt =====
-- Requests of internal/api/handler.go that are served at the same time: they share the state of the
-- resolver, the metrics and the log. A metric is observed under its mutex and a line of the log is
-- written under that of the logger, so each such access is one step; what a request does in between
-- touches its own response only. The call of `Resolve` comes back with any outcome that is given.
pub mod Stages
pub mod Invariants
pub mod Moves
pub mod Totals
pub mod Settling
pub mod Outcomes
pub mod Replies
use consent_owner_resolver.Prelude.{
  ℕ, Bool, not, Option, none, some, List, [], ◌∷◌, ◌++◌, Bytes, str, ◌==◌, eqb, if◌then◌else◌,
  Error, Result, ok, err, panicked,
}
use consent_owner_resolver.Prelude.Int.{ℤ}
use consent_owner_resolver.Go.Library.{Attempt}
use consent_owner_resolver.Types.{ResolveRequest, ResolveResult}
use consent_owner_resolver.Api.Floats.{Floats}
use consent_owner_resolver.Api.Logging.{error_class}
use consent_owner_resolver.Api.Metrics.{observe, observe_failure}
use consent_owner_resolver.Api.Metrics.Exposition.{write_to}
use consent_owner_resolver.Api.RequestId.{request_id, with_request_id, request_id_from}
use consent_owner_resolver.Api.Handler.{
  HttpRequest, Decoding, decoded, too_large, invalid, Payload, health, result, Reply, Handler,
  Shared, authorized, write_error, failure_line,
}
use consent_owner_resolver.Api.Serve.{
  ResponseWriter, StatusRecorder, Arrival, named_route, set_header, write, logged, write_json,
  challenged, route_resolve, route_health, route_metrics, prometheus_content_type,
  request_id_header,
}

-- A request that a route serves, with the recorder of its response.
pub record Serving (W : Type 0) : Type 0 where
  pub route : Bytes
  pub request : HttpRequest
  pub recorder : StatusRecorder W
  pub elapsed : ℤ

-- Where a request stands: what it does next, or how it has ended.
pub data Stage (W : Type 0) : Type 0 where
  arrived : Arrival W → Stage W
  resolving : Serving W → ResolveRequest → Stage W
  failing : Serving W → ResolveRequest → Error → Stage W
  reporting : Serving W → ResolveRequest → Error → Stage W
  replying : Serving W → Reply → Stage W
  scraping : Serving W → Stage W
  noting : Serving W → Option Bytes → Stage W
  responded : Serving W → Stage W
  answered : Bytes → W → Stage W
  passed : W → Stage W
  crashed : Stage W

unfoldable pub after_decoding : {W : Type 0} → Serving W → Decoding → Stage W
unfolding write_error
after_decoding g (decoded req) = resolving g req
after_decoding g too_large = replying g (write_error 413 (str "request body too large"))
after_decoding g (invalid why) = replying g (write_error 400 (str "invalid request body: " ++ why))

unfoldable pub after_resolving :
    {W : Type 0} → Serving W → ResolveRequest → Result ResolveResult → Stage W
after_resolving g req (ok out) =
    replying g (record { status = 200; challenge = none; payload = result out })
after_resolving g req (err e) = failing g req e
after_resolving g req panicked = crashed

unfoldable pub refusal : Error → Reply
unfolding write_error
refusal e =
    if e.bad_request
    then write_error 400 (str "invalid request body")
    else write_error 422 (str "cannot resolve owner")

unfoldable pub enter_metrics : {W : Type 0} → Serving W → Stage W
unfolding write_error
enter_metrics g =
    if not (g.request.method == str "GET")
    then replying g (write_error 405 (str "only GET is allowed"))
    else scraping g

unfoldable pub enter_health : {W : Type 0} → Serving W → Stage W
enter_health g = replying g (record { status = 200; challenge = none; payload = health (str "ok") })

unfoldable pub final : {W : Type 0} → Serving W → ℕ
final g = if eqb g.recorder.status 0 then 200 else g.recorder.status

-- What the handler that `NewHandler` returns is made of, with what it takes from outside.
pub record Service (W S Fl : Type 0) : Type 0 where
  pub writer : ResponseWriter W
  pub encode : Payload → Attempt Bytes
  pub quote : Bytes → Bytes
  pub fl : Floats Fl
  pub digest : Bytes → Bytes
  pub decode : ℤ → Bytes → Decoding
  pub handler : Handler S
  pub mux : List Bytes → Bytes → Option Bytes
  pub otherwise : HttpRequest → W → W

module _ {W S Fl : Type 0} (v : Service W S Fl) where
  unfoldable pub enter_resolve : Serving W → Stage W
  unfolding authorized write_error after_decoding
  enter_resolve g =
      if not (g.request.method == str "POST")
      then replying g (write_error 405 (str "only POST is allowed"))
      else if not (authorized v.handler.auth_token g.request.authorization)
      then replying g
          (record (write_error 401 (str "unauthorized")) { challenge = some (str "Bearer") })
      else after_decoding g (v.decode v.handler.max_body_bytes g.request.body)

  -- The request that the instrumentation of a route hands on.
  unfoldable pub stamped : Bytes → Arrival W → Serving W
  unfolding request_id with_request_id
  stamped route a =
      let id = request_id a.random a.request.given_id in
      record {
        route = route;
        request = record a.request { context = with_request_id a.request.context id };
        recorder = record {
          response_writer = v.writer.set request_id_header id a.writer;
          status = 0;
        };
        elapsed = a.elapsed;
      }

  unfoldable pub enter : Option Bytes → Arrival W → Stage W
  unfolding enter_resolve enter_health enter_metrics stamped
  enter none a = passed (v.otherwise a.request a.writer)
  enter (some route) a =
      if route == route_resolve
      then enter_resolve (stamped route_resolve a)
      else if route == route_health
      then enter_health (stamped route_health a)
      else if route == route_metrics
      then enter_metrics (stamped route_metrics a)
      else passed (v.otherwise a.request a.writer)

  -- A response, written; a failure to do so is logged.
  unfoldable pub respond : Serving W → Reply → Shared S Fl → StatusRecorder W × Shared S Fl
  unfolding challenged write_json
  respond g out s =
      write_json v.writer v.encode out.status out.payload
        (challenged v.writer out.challenge g.recorder) s

  -- The metrics, written under their mutex.
  unfoldable pub scrape : Serving W → Shared S Fl → Option Bytes × StatusRecorder W
  unfolding write_to write set_header
  scrape g s =
      write_to (write v.writer) v.quote v.fl s.metrics
        (set_header v.writer (str "Content-Type") prometheus_content_type g.recorder)

  -- A step of one request.
  module _ (Resolves : ResolveRequest → S → Result ResolveResult → S → Type 0) where
    pub data Move (s : Shared S Fl) : Stage W → Shared S Fl → Stage W → Type 0 where
      starts : (a : Arrival W) → Move s (arrived a) s (enter (named_route v.mux a) a)
      resolves :
          (g : Serving W) (req : ResolveRequest) {out : Result ResolveResult} {t : S}
          → Resolves req s.facade out t
          → Move s (resolving g req) (record s { facade = t }) (after_resolving g req out)
      counts_failure :
          (g : Serving W) (req : ResolveRequest) (e : Error)
          → Move s
              (failing g req e)
              (record s {
                metrics = record s.metrics {
                  failures = observe_failure (error_class (some e)) s.metrics.failures;
                };
              })
              (reporting g req e)
      reports :
          (g : Serving W) (req : ResolveRequest) (e : Error)
          → Move s
              (reporting g req e)
              (record s {
                log =
                    failure_line v.quote v.digest v.handler.debug
                      (request_id_from g.request.context)
                      req
                      e
                    ∷ s.log;
              })
              (replying g (refusal e))
      replies :
          (g : Serving W) (out : Reply)
          → Move s
              (replying g out)
              (respond g out s).1
              (responded (record g { recorder = (respond g out s).0 }))
      scrapes :
          (g : Serving W)
          → Move s (scraping g) s (noting (record g { recorder = (scrape g s).1 }) (scrape g s).0)
      notes :
          (g : Serving W) (failure : Option Bytes)
          → Move s
              (noting g failure)
              (logged v.writer (str "[owner-resolver] write metrics: ") failure s)
              (responded g)
      observes :
          (g : Serving W)
          → Move s
              (responded g)
              (record s { metrics = observe v.fl g.route (final g) g.elapsed s.metrics })
              (answered g.route g.recorder.response_writer)

    -- A step of one out of the requests, or a new one, which comes last.
    pub data Turn (s : Shared S Fl) : List (Stage W) → Shared S Fl → List (Stage W) → Type 0 where
      arrives : (a : Arrival W) → Turn s [] s (arrived a ∷ [])
      moves :
          {t : Shared S Fl} {x y : Stage W} (rest : List (Stage W))
          → Move s x t y
          → Turn s (x ∷ rest) t (y ∷ rest)
      passes :
          {t : Shared S Fl} (x : Stage W) {rest next : List (Stage W)}
          → Turn s rest t next
          → Turn s (x ∷ rest) t (x ∷ next)

    -- Any number of steps, of any of the requests.
    pub data Reach (s : Shared S Fl) (xs : List (Stage W))
        : Shared S Fl → List (Stage W) → Type 0 where
      at_start : Reach s xs s xs
      further :
          {t u : Shared S Fl} {ys zs : List (Stage W)}
          → Reach s xs t ys
          → Turn t ys u zs
          → Reach s xs u zs
