-- ===== src/Examples/Serving.antt =====
-- Two requests of a running service: a resolution and a scrape of the metrics.
use consent_owner_resolver.Prelude.{
  ℕ, ◌+◌, ◌/◌, ◌≡◌, ◌≢◌, ◌++◌, refl, inl, false, Option, none, some, List, [], ◌∷◌, arith, Bytes,
  str, ◌==◌, has_prefix, leb, eqb, if◌then◌else◌, ok,
}
use consent_owner_resolver.Prelude.Dict.{Dict, get}
use consent_owner_resolver.Prelude.Int.{ℤ, pos, negsuc}
use consent_owner_resolver.Go.Library.{Attempt, done}
use consent_owner_resolver.Go.Strconv.{itoa}
use consent_owner_resolver.Api.Floats.{Floats}
use consent_owner_resolver.Api.Metrics.{Metrics, new_metrics, value_of, observe, duration_buckets}
use consent_owner_resolver.Api.Metrics.Consistency.{IsAscending}
use consent_owner_resolver.Api.Handler.{
  bearer_prefix, Decoding, decoded, Payload, Handler, Shared, authorized, drop, handle_resolve,
}
use consent_owner_resolver.Api.RequestId.{is_usable_request_id}
use consent_owner_resolver.Api.Serve.{
  ResponseWriter, Arrival, route_resolve, named_route, serve, instrument,
}
use consent_owner_resolver.Api.Serve.Statuses.{Fails}
use consent_owner_resolver.Api.Serve.Sent.{IsHonest}
use consent_owner_resolver.Api.Serve.Recorded.{serve-observe}
use consent_owner_resolver.Api.Serve.Refused.{IsRefused, serve-IsRefused}
use consent_owner_resolver.Examples.{go, ask, two_claims}

-- Milliseconds for the numbers of the source.
abbrev millis : Dict ℕ
millis =
    (str "0", 0)
    ∷ (str "0.001", 1)
    ∷ (str "0.005", 5)
    ∷ (str "0.01", 10)
    ∷ (str "0.025", 25)
    ∷ (str "0.05", 50)
    ∷ (str "0.1", 100)
    ∷ (str "0.25", 250)
    ∷ (str "0.5", 500)
    ∷ (str "1", 1000)
    ∷ (str "2.5", 2500)
    ∷ (str "5", 5000)
    ∷ (str "10", 10000)
    ∷ []

abbrev nanoseconds : ℤ → ℕ
nanoseconds (pos n) = n
nanoseconds (negsuc n) = 0

abbrev pub fl : Floats ℕ
fl = record {
  literal = λ s. value_of (get millis s);
  add = λ x y. x + y;
  at_most = leb;
  seconds = λ z. nanoseconds z / 1000000;
  format = itoa;
}

serves : Unit {0}
unfolding str ◌==◌ get duration_buckets has_prefix authorized drop is_usable_request_id
    handle_resolve serve instrument observe
serves = tt

pub ascending : IsAscending fl (duration_buckets fl)
unfolding serves
ascending = ground arith

-- A response on the wire.
pub record Wire : Type 0 where
  pub status : ℕ
  pub body : List Bytes

abbrev first_status : ℕ → ℕ → ℕ
first_status n old = if eqb old 0 then n else old

abbrev pub writer : ResponseWriter Wire
writer = record {
  set = λ k v w. w;
  write_header = λ n w. record w { status = first_status n w.status };
  write = λ b w. (none, record { status = first_status 200 w.status; body = b ∷ w.body });
}

abbrev sent : Wire → ℕ
sent w = w.status

honest : IsHonest writer sent
honest = record { sets = λ k v w. refl; sends = λ n w new. rw new refl; writes = λ b w. refl }

abbrev blank : Wire
blank = record { status = 0; body = [] }

abbrev pub request : Bytes → Bytes → Arrival Wire
request method path = record {
  request = record {
    method = method;
    path = path;
    authorization = [];
    given_id = str "7";
    context = none;
    body = [];
  };
  random = none;
  elapsed = pos 30000000;
  writer = blank;
}

abbrev pub encode : Payload → Attempt Bytes
encode v = done (str "{}")

abbrev pub decode : ℤ → Bytes → Decoding
decode limit body = decoded (ask (str "docs") (str "/docs") none)

abbrev pub handler : Handler ℕ
handler = record {
  resolver = λ req s. (ok two_claims, s);
  max_body_bytes = pos 100;
  auth_token = [];
  debug = false;
}

abbrev pub mux : List Bytes → Bytes → Option Bytes
mux [] path = none
mux (p ∷ ps) path = if p == path then some p else mux ps path

abbrev start : Shared ℕ ℕ
start = record { facade = 0; metrics = new_metrics; log = [] }

abbrev pub arrivals : List (Arrival Wire)
arrivals = request (str "POST") (str "/resolve") ∷ request (str "GET") (str "/metrics") ∷ []

-- A resolution, answered with the status 200.
abbrev served : Wire
served = record { status = 200; body = str "{}" ∷ [] }

resolves_route : named_route mux (request (str "POST") (str "/resolve")) ≡ some route_resolve
unfolding serves
resolves_route = refl

resolves_answer :
    (serve writer encode go.quote fl
      (λ s. s)
      decode
      handler
      mux
      (λ q w. w)
      (request (str "POST") (str "/resolve"))
      start).0
    ≡ ok served
unfolding serves
resolves_answer = refl

serve-observe_example :
    (n : Metrics ℕ) × Fails new_metrics n
    × ((serve writer encode go.quote fl
          (λ s. s)
          decode
          handler
          mux
          (λ q w. w)
          (request (str "POST") (str "/resolve"))
          start).1.metrics
        ≡ observe fl route_resolve 200 (pos 30000000) n)
serve-observe_example =
    serve-observe writer sent honest encode go.quote fl (λ s. s) decode handler mux (λ q w. w)
      route_resolve (request (str "POST") (str "/resolve")) start served refl (inl refl)
      resolves_route resolves_answer

-- The service with a secret, which the request does not present.
abbrev guarded : Handler ℕ
guarded = record handler { auth_token = str "secret" }

secret-set : str "secret" ≢ []
unfolding serves
secret-set = cc

nothing-ne-bearer : [] ≢ bearer_prefix ++ str "secret"
unfolding serves
nothing-ne-bearer e = cc e

refused_answer :
    (serve writer encode go.quote fl
      (λ s. s)
      decode
      guarded
      mux
      (λ q w. w)
      (request (str "POST") (str "/resolve"))
      start).0
    ≡ ok (record { status = 401; body = str "{}" ∷ [] })
unfolding serves
refused_answer = refl

serve-IsRefused_example : IsRefused writer sent fl (request (str "POST") (str "/resolve")) start (
    serve writer encode go.quote fl
      (λ s. s)
      decode
      guarded
      mux
      (λ q w. w)
      (request (str "POST") (str "/resolve"))
      start)
serve-IsRefused_example =
    serve-IsRefused writer sent honest encode go.quote fl (λ s. s) decode guarded mux (λ q w. w)
      (request (str "POST") (str "/resolve")) start refl resolves_route secret-set nothing-ne-bearer
