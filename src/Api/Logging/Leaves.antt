-- ===== src/Api/Logging/Leaves.antt =====
-- The classes of internal/api/logging.go, for the errors of matcher.go and items.go.

use consent_owner_resolver.Prelude.{
  ℕ, suc, Bool, true, false, Option, none, some, List, [], ◌∷◌, ◌++◌, inl, inr, refl, Bytes, str,
  ◌==◌, get_elem?, Error, Result, ok, err, panicked,
}
use consent_owner_resolver.Prelude.Exec.{Exec}
use consent_owner_resolver.Json.{Json, array, elements}
use consent_owner_resolver.Go.Library.{Library}
use consent_owner_resolver.Types.{Claim, ResolveRequest}
use consent_owner_resolver.Contract.{Contract}
use consent_owner_resolver.Items.{
  claims_from, claims_of_array, claims_of_root, claims_per_item, no_data, not_array,
}
use consent_owner_resolver.Pointer.{get_json_pointer, pointer_string}
use consent_owner_resolver.Matcher.PathMatcher.{
  PathMatcher, index, resource_of, owned, extracted, path_claims,
}
use consent_owner_resolver.Matcher.JsonMatcher.{
  JsonMatcher, required, item_resource, absent, json_claim_for_item,
}
use consent_owner_resolver.Matcher.ContractMatcher.{wrapped, governing_or, contract_matcher_name}
use consent_owner_resolver.Api.Logging.{error_class}
use consent_owner_resolver.Api.Logging.Classes.{
  IsListed, Listed, if-Listed, bind-Listed, exec-Listed,
}

pub wrapped-Listed :
    {A : Type 0} (prefix : Bytes) (r : Result A)
    → ((m : Bytes) (bad : Bool) → IsListed (record { message = prefix ++ m; bad_request = bad }))
    → Listed (wrapped prefix r)
unfolding wrapped
wrapped-Listed prefix (ok a) h = tt
wrapped-Listed prefix (err e) h = h e.message e.bad_request
wrapped-Listed prefix panicked h = tt

pub governing_or-Listed : (e : Error) (o : Option Contract) → IsListed e → Listed (governing_or e o)
unfolding governing_or
governing_or-Listed e none h = h
governing_or-Listed e (some c) h = tt

module _ (lib : Library) where
  index-Listed : (sub : List Bytes) (i : ℕ) → Listed (index sub i)
  unfolding index
  index-Listed sub i =
      elim (get_elem? sub i) as (λ o. Listed (elim o [ none ↦ panicked | some s ↦ ok s ])) [
        | none ↦ tt
        | some s ↦ tt
      ]

  abbrev pub pii_prefix : Contract → Bytes
  pii_prefix c =
      contract_matcher_name
      ++ str ": resolving data resources of contract "
      ++ lib.quote c.id
      ++ str ": "

  pub pii_prefix-IsListed :
      (c : Contract) (m : Bytes) (bad : Bool)
      → IsListed (record { message = pii_prefix c ++ m; bad_request = bad })
  unfolding error_class
  pii_prefix-IsListed c m bad = inr (inr (inl refl))

  resource_of-Listed :
      (m : PathMatcher) (sub : List Bytes) (g : Option ℕ) → Listed (resource_of m sub g)
  unfolding resource_of
  resource_of-Listed m sub none = tt
  resource_of-Listed m sub (some g) = bind-Listed (index sub g) _ (index-Listed sub g) (λ r. tt)

  owned-Listed :
      (m : PathMatcher) (p : Bytes) (sub : List Bytes) (owner : Bytes)
      → Listed (owned lib m p sub owner)
  unfolding owned error_class
  owned-Listed m p sub owner = if-Listed (owner == []) _ _ (inl refl) (
      bind-Listed (resource_of m sub m.res_group) _ (resource_of-Listed m sub m.res_group)
        (λ r. tt))

  extracted-Listed :
      (m : PathMatcher) (p : Bytes) (o : Option (List Bytes)) → Listed (extracted lib m p o)
  unfolding extracted error_class
  extracted-Listed m p none = inl refl
  extracted-Listed m p (some sub) =
      bind-Listed (index sub m.owner_group) _ (index-Listed sub m.owner_group)
        (owned-Listed m p sub)

  pub path_claims-Listed : (m : PathMatcher) (req : ResolveRequest) → Listed (path_claims lib m req)
  unfolding path_claims
  path_claims-Listed m req =
      extracted-Listed m req.resource.path (m.re.find_string_submatch req.resource.path)

  pub required-Listed : (e : Error) (o : Option Bytes) → IsListed e → Listed (required e o)
  unfolding required
  required-Listed e none h = h
  required-Listed e (some s) h = if-Listed (s == []) _ _ h tt

  absent-Listed : (m : JsonMatcher) (what ptr : Bytes) → IsListed (absent lib m what ptr)
  unfolding absent error_class
  absent-Listed m what ptr = inr (inl refl)

  item_resource-Listed : (m : JsonMatcher) (item : Json) → Listed (item_resource lib m item)
  unfolding item_resource
  item_resource-Listed m item =
      if-Listed (m.resource_ptr == []) _ _ tt
        (required-Listed _ _ (absent-Listed m _ m.resource_ptr))

  pub json_claim_for_item-Listed :
      (m : JsonMatcher) (item : Json) (selector : Bytes)
      → Listed (json_claim_for_item lib m item selector)
  unfolding json_claim_for_item
  json_claim_for_item-Listed m item selector =
      bind-Listed (required _ (pointer_string item m.owner_ptr)) _
        (required-Listed _ _ (absent-Listed m _ m.owner_ptr))
        (λ owner. bind-Listed (item_resource lib m item) _ (item_resource-Listed m item) (λ r. tt))

  module _ {S : Type 0} (matcher : Bytes) (build : Json → Bytes → Exec S Claim)
      (builds : (item : Json) (selector : Bytes) (s : S) → Listed (build item selector s).0)
      (items : Bytes) (missing : IsListed (no_data lib items matcher))
      (shapeless : IsListed (not_array lib items matcher)) where
    claims_from-Listed :
        (i : ℕ) (rest : List Json) (s : S) → Listed (claims_from lib items build i rest s).0
    unfolding claims_from
    claims_from-Listed i [] s = tt
    claims_from-Listed i (item ∷ rest) s = exec-Listed (build item _) _ s (builds item _ s) (λ c t.
        exec-Listed (claims_from lib items build (suc i) rest) _ t
          (claims_from-Listed (suc i) rest t) (λ cs u. tt))

    claims_of_array-Listed :
        (root : Json) (s : S) → Listed (claims_of_array lib items matcher build root s).0
    unfolding claims_of_array
    claims_of_array-Listed (array es) s =
        exec-Listed (claims_from lib items build 0 (elements es)) _ s
          (claims_from-Listed 0 (elements es) s) (λ cs u. tt)
    claims_of_array-Listed root s = shapeless

    claims_of_root-Listed :
        (is_array : Bool) (o : Option Json) (s : S)
        → Listed (claims_of_root lib items is_array matcher build o s).0
    unfolding claims_of_root
    claims_of_root-Listed is_array none s = missing
    claims_of_root-Listed true (some root) s = claims_of_array-Listed root s
    claims_of_root-Listed false (some root) s =
        exec-Listed (build root items) _ s (builds root items s) (λ c u. tt)

    pub claims_per_item-Listed :
        (decoded : Json) (is_array : Bool) (s : S)
        → Listed (claims_per_item lib decoded items is_array matcher build s).0
    unfolding claims_per_item
    claims_per_item-Listed decoded is_array s =
        claims_of_root-Listed is_array (get_json_pointer decoded items) s
