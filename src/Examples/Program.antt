-- ===== src/Examples/Program.antt =====
-- A process from its environment to its exit, and the configured times.
use consent_owner_resolver.Prelude.{
  ℕ, ◌+◌, ◌-◌, ◌*◌, ◌^◌, ◌≤◌, ◌≡◌, ◌⊎◌, refl, arith, true, false, none, [], length, Bytes, str, ok,
}
use consent_owner_resolver.Prelude.Int.{pos, negsuc}
use consent_owner_resolver.Go.Library.{done}
use consent_owner_resolver.Cache.{
  Facade, caching_lookup, new_caching_lookup, resource_cache_ttl, client_lookup, store,
  sweep_threshold,
}
use consent_owner_resolver.Cache.Size.{AllLive, store-bounded}
use consent_owner_resolver.Cache.Ttl.{new_caching_lookup-ttl}
use consent_owner_resolver.Contract.Client.{new_client}
use consent_owner_resolver.Contract.Client.Timeouts.{new_client-timeout}
use consent_owner_resolver.Lookup.{ContractLookup}
use consent_owner_resolver.Config.{load, loaded, parse}
use consent_owner_resolver.Rules.{ConfigResolver}
use consent_owner_resolver.Types.{ResolveRequest}
use consent_owner_resolver.Policy.{policy, is_meant}
use consent_owner_resolver.Policy.Followed.{followed, handle_resolve-policy}
use consent_owner_resolver.Api.Handler.{
  Options, Shared, HttpRequest, decoded, Reply, result, new_handler, handle_resolve, authorized,
}
use consent_owner_resolver.Api.Metrics.{new_metrics}
use consent_owner_resolver.Resolve.{resolve}
use consent_owner_resolver.Main.Run.{
  awaiting, shutting_down, returned, Process, run, sent_error, signal, shut_down, serve_closes,
  receive_last, Steps, begin, go_on, exit,
}
use consent_owner_resolver.Main.Run
use consent_owner_resolver.Main.Program.{Outside, settings, begun, at_return}
use consent_owner_resolver.Main.Program.Clean.{Exits-clean}
use consent_owner_resolver.Examples.{go, network, raw_config, ask, json_body, two_claims}
use consent_owner_resolver.Examples.Resolution.{runs, quiet, resolver, compiled}

abbrev outside : Outside ℕ
outside = record {
  env = λ key. [];
  read_file = λ file. done (str "{}");
  decode = λ text. done raw_config;
  listen = λ addr. none;
  network = network;
}

abbrev stopped : Process (Facade ℕ)
stopped = record (begun go outside true) {
  serving = false;
  serve_err = none;
  phase = returned none;
}

steps : Steps (begun go outside true) 4 stopped
unfolding begun runs run load loaded parse sent_error
steps =
    go_on
      (go_on (go_on (go_on begin (Run.done refl refl)) (shut_down refl))
        (serve_closes refl refl refl))
      (receive_last none refl refl)

given : true ≡ stopped.cancelled
unfolding begun runs run load loaded parse sent_error
given = refl

Exits-clean_example :
    (str "[owner-resolver] stopped" ≡ str "[owner-resolver] stopped")
    × (outside.listen (settings go outside).listen_addr ≡ none)
    × ((res : ConfigResolver (Facade ℕ)) × (load go network outside.read_file outside.decode
            (settings go outside).config_path
          ≡ ok res))
    × (true ≡ true)
unfolding exit
Exits-clean_example =
    Exits-clean go outside true (str "[owner-resolver] stopped")
      (at_return true 4 stopped none refl steps refl given refl)

abbrev url : Bytes
url = str "https://facade.local"

-- 2 ^ 58 milliseconds, which are no timeout at all.
new_client-timeout_example :
    ((new_client url (pos (0 + 1 * 2 ^ 58))).timeout ≡ pos (0 * 1000000))
    × ((new_client url (pos 0)).timeout ≡ pos 3000000000)
    × ((m : ℕ) → (new_client url (negsuc m)).timeout ≡ pos 3000000000)
new_client-timeout_example = new_client-timeout url 0 1 (omega arith) (omega arith)

abbrev inner : ContractLookup (Facade ℕ)
inner = client_lookup go.quote network (new_client url (pos 0))

new_caching_lookup-ttl_example :
    (new_caching_lookup network.now inner (resource_cache_ttl (pos 5))
      ≡ caching_lookup network.now inner (5 * 1000000))
    × (new_caching_lookup network.now inner (resource_cache_ttl (negsuc 4)) ≡ inner)
    × (new_caching_lookup network.now inner (resource_cache_ttl (pos 0))
        ≡ caching_lookup network.now inner 30000000000)
    × (new_caching_lookup network.now inner (resource_cache_ttl (negsuc (2 ^ 58 - 5 - 1)))
        ≡ caching_lookup network.now inner (5 * 1000000))
new_caching_lookup-ttl_example = new_caching_lookup-ttl network.now inner 4 (omega arith)

store-bounded_example :
    let items = (store network.now 100 (str "c1") none quiet).items in
    (length items ≤ sweep_threshold) ⊎ AllLive (network.now 0).0 items
store-bounded_example = store-bounded network.now 100 (str "c1") none quiet

abbrev get_docs : ResolveRequest
get_docs = ask (str "docs") (str "/docs") (json_body (str "two"))

abbrev post : HttpRequest
post = record {
  method = str "POST";
  path = str "/resolve";
  authorization = [];
  given_id = [];
  context = none;
  body = [];
}

abbrev options : Options
options = record { max_body_bytes = pos 0; auth_token = []; debug = false }

abbrev shared : Shared (Facade ℕ) ℕ
shared = record { facade = quiet; metrics = new_metrics; log = [] }

abbrev answer : Reply
answer = record { status = 200; challenge = none; payload = result two_claims }

answers :
    (handle_resolve go.quote
      (λ s. s)
      (new_handler (resolve go resolver) options)
      (λ limit body. decoded get_docs)
      post
      shared).0
    ≡ ok answer
unfolding runs handle_resolve new_handler authorized
answers = refl

handle_resolve-policy_example :
    (req : ResolveRequest) × (decoded get_docs ≡ decoded req)
    × (followed two_claims ≡ policy go raw_config req)
handle_resolve-policy_example =
    handle_resolve-policy go network raw_config resolver options (λ s. s)
      (λ limit body. decoded get_docs) post shared answer two_claims compiled answers refl

-- The rule for the service, with a scheme of its own.
docs_policy :
    policy go raw_config get_docs ≡ record { consent_required = true; scheme = str "email" }
unfolding runs policy is_meant
docs_policy = refl
