-- ===== src/Matcher.antt =====
-- internal/resolver/matcher.go: the interface `Matcher`, with its four implementations.
pub mod Frame
pub mod PathMatcher
pub mod JsonMatcher
pub mod StaticMatcher
pub mod ContractMatcher
pub mod Owners
pub mod Justified
pub mod Located
pub mod Memo
use PathMatcher.{path_claims}
use JsonMatcher.{json_claims}
use StaticMatcher.{static_claims}
use ContractMatcher.{contract_claims}
use consent_owner_resolver.Prelude.Exec.{Exec, lift}
use consent_owner_resolver.Go.Library.{Library}
use consent_owner_resolver.Types.{Slice, ResolveRequest, Claim}

pub data Matcher (S : Type 0) : Type 0 where
  path : PathMatcher.PathMatcher → Matcher S
  json : JsonMatcher.JsonMatcher → Matcher S
  static : StaticMatcher.StaticMatcher → Matcher S
  contract : ContractMatcher.ContractMatcher S → Matcher S

-- The call of the interface's method `Claims`.
unfoldable pub claims :
    {S : Type 0} → Library → Matcher S → ResolveRequest → Exec (Frame.Frame S) (Slice Claim)
claims lib (path m) req = lift (path_claims lib m req)
claims lib (json m) req = json_claims lib m
claims lib (static m) req = lift (static_claims m)
claims lib (contract m) req = contract_claims lib m req
