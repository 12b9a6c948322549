-- ===== src/Examples/Threads.antt =====
-- Two probes of a running service that are answered at the same time, the second one first.
use consent_owner_resolver.Prelude.{
  ℕ, ◌≡◌, refl, none, Bytes, List, [], ◌∷◌, arith, str, ◌==◌, Result, ok,
}
use consent_owner_resolver.Prelude.Int.{pos}
use consent_owner_resolver.Prelude.Dict.{get}
use consent_owner_resolver.Types.{ResolveRequest, ResolveResult}
use consent_owner_resolver.Api.Metrics.{new_metrics, observe}
use consent_owner_resolver.Api.Metrics.Counts.{total}
use consent_owner_resolver.Api.Handler.{health, Shared}
use consent_owner_resolver.Api.RequestId.{is_usable_request_id}
use consent_owner_resolver.Api.Serve.{Arrival, route_health}
use consent_owner_resolver.Api.Threads.{
  Serving, Stage, arrived, replying, answered, Service, enter, stamped, enter_health, respond,
  final, starts, replies, observes, arrives, moves, passes, Reach, at_start, further,
}
use consent_owner_resolver.Api.Threads.Moves.{IsSound}
use consent_owner_resolver.Api.Threads.Stages.{answers}
use consent_owner_resolver.Api.Threads.Totals.{Reach-IsSound}
use consent_owner_resolver.Examples.{go, two_claims}
use consent_owner_resolver.Examples.Serving.{
  Wire, fl, ascending, writer, encode, decode, mux, request, handler,
}

abbrev service : Service Wire ℕ ℕ
service = record {
  writer = writer;
  encode = encode;
  quote = go.quote;
  fl = fl;
  digest = λ s. s;
  decode = decode;
  handler = handler;
  mux = mux;
  otherwise = λ q w. w;
}

abbrev probe : Arrival Wire
probe = request (str "GET") (str "/health")

abbrev started : Shared ℕ ℕ
started = record { facade = 0; metrics = new_metrics; log = [] }

abbrev AnyTwo : ResolveRequest → ℕ → Result ResolveResult → ℕ → Type 0
AnyTwo req s out t = out ≡ ok two_claims

abbrev serving : Serving Wire
serving = stamped service route_health probe

-- The second one has been answered, and the first one has not.
abbrev seen : Shared ℕ ℕ
seen = record started { metrics = observe fl route_health 200 (pos 30000000) new_metrics }

probed : Unit {0}
unfolding str ◌==◌ get is_usable_request_id observe stamped enter enter_health respond final
probed = tt

abbrev stages : List (Stage Wire)
stages =
    replying serving (record { status = 200; challenge = none; payload = health (str "ok") })
    ∷ answered route_health (record { status = 200; body = str "{}" ∷ [] })
    ∷ []

interleaved : Reach service AnyTwo started [] seen stages
unfolding probed
interleaved =
    further
      (further
        (further
          (further
            (further (further at_start (arrives probe)) (passes (arrived probe) (arrives probe)))
            (passes (arrived probe) (moves [] (starts probe))))
          (moves _ (starts probe)))
        (passes _ (moves [] (replies _ _))))
      (passes _ (moves [] (observes _)))

one_answer : answers route_health stages ≡ 1
unfolding probed answers
one_answer = refl

Reach-IsSound_example :
    IsSound service seen.metrics
    × ((route : Bytes) → total route seen.metrics.requests ≡ answers route stages)
Reach-IsSound_example =
    Reach-IsSound service ascending {Resolves = AnyTwo} interleaved (omega arith)
