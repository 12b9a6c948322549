-- ===== src/Examples/Concurrent.antt =====
-- Two resolutions of a service with a resolver that is compiled, at the same time: the second one is
-- about to be answered, and the first one waits for `Resolve`.
use consent_owner_resolver.Prelude.{
  List, length, All, ◌≡◌, refl, inl, arith, ◌==◌, false, none, [], ◌∷◌, Bytes, str, ℕ,
}
use consent_owner_resolver.Prelude.Int.{ℤ, pos}
use consent_owner_resolver.Cache.{Facade}
use consent_owner_resolver.Types.{ResolveRequest}
use consent_owner_resolver.Resolve.{resolve}
use consent_owner_resolver.Policy.{policy}
use consent_owner_resolver.Policy.Followed.{followed}
use consent_owner_resolver.Policy.Concurrent.{Reach-policy}
use consent_owner_resolver.Api.Metrics.{new_metrics}
use consent_owner_resolver.Api.Handler.{
  Options, Shared, Decoding, decoded, Reply, result, new_handler, authorized,
}
use consent_owner_resolver.Api.RequestId.{is_usable_request_id}
use consent_owner_resolver.Api.Serve.{Arrival, route_resolve, serve_all}
use consent_owner_resolver.Api.Threads.{
  Stage, Serving, arrived, resolving, replying, Service, enter, stamped, enter_resolve,
  after_resolving, starts, resolves, arrives, moves, passes, Reach, at_start, further,
}
use consent_owner_resolver.Api.Threads.Outcomes.{InSomeState}
use consent_owner_resolver.Api.Threads.Replies.{IsBacked, Reach-IsBacked}
use consent_owner_resolver.Examples.{go, network, raw_config, ask, json_body, two_claims}
use consent_owner_resolver.Settled.Service.{asked, serve_all_complete}
use consent_owner_resolver.Api.Metrics.Counts.{total}
use consent_owner_resolver.Settled.Concurrent.{IsAnswered, Reach-IsAnswered}
use consent_owner_resolver.Examples.Resolution.{go-IsRegexp, runs, quiet, resolver, compiled}
use consent_owner_resolver.Examples.Serving.{Wire, fl, ascending, writer, encode, mux, request}

abbrev get_docs : ResolveRequest
get_docs = ask (str "docs") (str "/docs") (json_body (str "two"))

abbrev decode : ℤ → Bytes → Decoding
decode limit body = decoded get_docs

abbrev options : Options
options = record { max_body_bytes = pos 0; auth_token = []; debug = false }

abbrev service : Service Wire (Facade ℕ) ℕ
service = record {
  writer = writer;
  encode = encode;
  quote = go.quote;
  fl = fl;
  digest = λ s. s;
  decode = decode;
  handler = new_handler (resolve go resolver) options;
  mux = mux;
  otherwise = λ q w. w;
}

abbrev resolution : Arrival Wire
resolution = request (str "POST") (str "/resolve")

abbrev started : Shared (Facade ℕ) ℕ
started = record { facade = quiet; metrics = new_metrics; log = [] }

abbrev serving : Serving Wire
serving = stamped service route_resolve resolution

abbrev answer : Reply
answer = record { status = 200; challenge = none; payload = result two_claims }

both :
    Reach service
      (InSomeState service)
      started
      []
      started
      (resolving serving get_docs ∷ replying serving answer ∷ [])
unfolding runs is_usable_request_id stamped enter enter_resolve after_resolving authorized
    new_handler
both =
    further
      (further
        (further
          (further (further at_start (arrives resolution))
            (passes (arrived resolution) (arrives resolution)))
          (moves _ (starts resolution)))
        (passes _ (moves [] (starts resolution))))
      (passes _ (moves [] (resolves serving get_docs (quiet, refl))))

Reach-IsBacked_example :
    IsBacked service (InSomeState service) serving.request two_claims × (answer.status ≡ 200)
Reach-IsBacked_example =
    Reach-IsBacked service (InSomeState service) (resolving serving get_docs ∷ []) [] serving answer
      two_claims both refl

Reach-policy_example :
    (req : ResolveRequest) × (decode service.handler.max_body_bytes serving.request.body
      ≡ decoded req)
    × (followed two_claims ≡ policy go raw_config req)
Reach-policy_example =
    Reach-policy go network raw_config resolver options service (resolving serving get_docs ∷ []) []
      serving answer two_claims compiled refl both refl

Reach-IsAnswered_example :
    (u : Shared (Facade ℕ) ℕ) × ((ys : List (Stage Wire)) × (Reach service
          (InSomeState service)
          started
          (resolving serving get_docs ∷ replying serving answer ∷ [])
          u
          ys
        × (length ys ≡ 2)
        × All IsAnswered ys))
Reach-IsAnswered_example =
    Reach-IsAnswered go network raw_config resolver options service go-IsRegexp compiled refl both

-- Two resolutions, one after the other, with buckets whose bounds ascend.
serve_all_complete_example :
    total route_resolve
      (serve_all writer encode go.quote fl
        (λ s. s)
        decode
        (new_handler (resolve go resolver) options)
        mux
        (λ q w. w)
        (resolution ∷ resolution ∷ [])
        started).metrics.requests
    ≡ asked mux route_resolve (resolution ∷ resolution ∷ [])
serve_all_complete_example =
    serve_all_complete go (λ s. s) network writer encode fl decode mux (λ q w. w) raw_config
      resolver options (resolution ∷ resolution ∷ []) quiet [] route_resolve go-IsRegexp ascending
      compiled (omega arith) (inl refl)

two_asked : asked mux route_resolve (resolution ∷ resolution ∷ []) ≡ 2
unfolding asked str ◌==◌
two_asked = refl
