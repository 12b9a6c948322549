-- ===== src/Api/Threads/Outcomes.antt =====
-- What the calls of `Resolve` in internal/api/handler.go may come back with, while other requests are
-- served.
use consent_owner_resolver.Prelude.{◌≡◌, Result}
use consent_owner_resolver.Types.{ResolveRequest, ResolveResult}
use consent_owner_resolver.Api.Threads.{Service}

module _ {W S Fl : Type 0} (v : Service W S Fl) where
  -- An outcome that the resolver of the handler has in some state, while its state may change in any
  -- way.
  abbrev pub InSomeState : ResolveRequest → S → Result ResolveResult → S → Type 0
  InSomeState req s out t = (seen : S) × ((v.handler.resolver req seen).0 ≡ out)
