-- ===== src/Governing.antt =====
-- internal/resolver/contract_matcher.go: which contract governs a requested object.
pub mod Laws
use consent_owner_resolver.Prelude.{
  Bool, true, false, Option, none, some, List, [], ◌∷◌, Bytes, ◌==◌, if◌then◌else◌,
}
use consent_owner_resolver.Contract.{Rule, Policy, Contract, DataResource}

unfoldable pub targets : List Rule → Bytes → Bool
targets [] requested_uri = false
targets (rule ∷ rules) requested_uri =
    if rule.asset_target == requested_uri then true else targets rules requested_uri

unfoldable pub any_permits : List Policy → Bytes → Bool
unfolding targets
any_permits [] requested_uri = false
any_permits (policy ∷ policies) requested_uri =
    if targets policy.permission requested_uri then true else any_permits policies requested_uri

unfoldable pub permits : Contract → Bytes → Bool
unfolding any_permits
permits c = any_permits c.policy

unfoldable pub any_prohibits : List Policy → Bytes → Bool
unfolding targets
any_prohibits [] requested_uri = false
any_prohibits (policy ∷ policies) requested_uri =
    if targets policy.prohibition requested_uri then true else any_prohibits policies requested_uri

unfoldable pub prohibits : Contract → Bytes → Bool
unfolding any_prohibits
prohibits c = any_prohibits c.policy

unfoldable pub find_contract_for_target : List Contract → Bytes → Option Contract
find_contract_for_target [] requested_uri = none
find_contract_for_target (c ∷ contracts) requested_uri =
    let rest = find_contract_for_target contracts requested_uri in
    if prohibits c requested_uri then rest else if permits c requested_uri then some c else rest

unfoldable pub first_pii_resource : List DataResource → Option DataResource
first_pii_resource [] = none
first_pii_resource (r ∷ resources) = if r.contains_pii then some r else first_pii_resource resources
