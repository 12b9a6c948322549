-- ===== src/Policy/Concurrent.antt =====
-- The requests of internal/api/handler.go that are served at the same time, with a resolver that
-- internal/resolver/config.go compiles, against the policy of the configuration.
use consent_owner_resolver.Prelude.{◌≡◌, sym, ap, ◌∙◌, List, [], ◌∷◌, ◌++◌, ok}
use consent_owner_resolver.Go.Library.{Library}
use consent_owner_resolver.Types.{ResolveRequest, ResolveResult}
use consent_owner_resolver.RawConfig.{RawConfig}
use consent_owner_resolver.Contract.Client.{Network}
use consent_owner_resolver.Cache.{Facade}
use consent_owner_resolver.Rules.{ConfigResolver}
use consent_owner_resolver.Resolve.{resolve}
use consent_owner_resolver.Config.{compile_config}
use consent_owner_resolver.Api.Handler.{Options, Reply, Shared, decoded, result, new_handler}
use consent_owner_resolver.Api.Threads.{Serving, Stage, replying, Service, Reach}
use consent_owner_resolver.Api.Threads.Outcomes.{InSomeState}
use consent_owner_resolver.Api.Threads.Replies.{Reach-IsBacked}
use consent_owner_resolver.Policy.{policy}
use consent_owner_resolver.Policy.Followed.{followed, resolve-policy}

-- A service of a resolver that is compiled from a configuration, whose calls of `Resolve` come back
-- with the outcome for some state of the resolver, while that state may change in any way. However the
-- steps of its requests interleave, from a start without any: a result that is about to be written to
-- a request has the flag of consent and the scheme that the configuration, as it is written, has for
-- what the body of this very request decodes to.
pub Reach-policy :
    (lib : Library) {W V Fl : Type 0} (net : Network V) (raw : RawConfig)
    (r : ConfigResolver (Facade V)) (opts : Options) (v : Service W (Facade V) Fl)
    {s t : Shared (Facade V) Fl} (before after : List (Stage W)) (g : Serving W) (written : Reply)
    (out : ResolveResult)
    → compile_config lib net raw ≡ ok r
    → v.handler ≡ new_handler (resolve lib r) opts
    → Reach v (InSomeState v) s [] t (before ++ replying g written ∷ after)
    → written.payload ≡ result out
    → (req : ResolveRequest) × (v.decode v.handler.max_body_bytes g.request.body ≡ decoded req)
      × (followed out ≡ policy lib raw req)
unfolding new_handler
Reach-policy lib net raw r opts v before after g written out compiled made reach e =
    let (backed, status) = Reach-IsBacked v (InSomeState v) before after g written out reach e in
    (
      backed.request,
      backed.asked.body,
      resolve-policy lib net raw r backed.request backed.resolved.0 out compiled (
          ap (λ h. (h.resolver backed.request backed.resolved.0).0) (sym made) ∙ backed.resolved.1),
    )
