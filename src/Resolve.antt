-- ===== src/Resolve.antt =====
-- internal/resolver/config.go: the resolution of a request, by the first rule that matches.
pub mod Laws
pub mod Safety
pub mod Independence
pub mod Laziness
use consent_owner_resolver.Prelude.{
  Option, none, some, List, [], ◌∷◌, if◌then◌else◌, Result, ok, err, panicked,
}
use consent_owner_resolver.Prelude.Exec.{Exec}
use consent_owner_resolver.Go.Library.{Library}
use consent_owner_resolver.Types.{Slice, Claim, ResolveRequest, ResolveResult}
use consent_owner_resolver.Payload.{LazyPayload, new_lazy_payload}
use consent_owner_resolver.Matcher.{claims}
use consent_owner_resolver.Matcher.Frame.{Frame}
use consent_owner_resolver.Rules.{CompiledRule, ConfigResolver, matches}

-- A nil slice becomes an empty one.
unfoldable pub no_claims_is_empty_list : Slice Claim → Slice Claim
no_claims_is_empty_list none = some []
no_claims_is_empty_list (some cs) = some cs

module _ (lib : Library) {S : Type 0} where
  unfoldable pub result_of :
      CompiledRule S → Result (Slice Claim) × Frame S → Result ResolveResult × S
  unfolding no_claims_is_empty_list
  result_of rule (ok cs, f) = (
    ok (record {
      consent_required = rule.consent_required;
      scheme = rule.scheme;
      claims = no_claims_is_empty_list cs;
    }),
    f.facade,
  )
  result_of rule (err e, f) = (err e, f.facade)
  result_of rule (panicked, f) = (panicked, f.facade)

  unfoldable pub default_result : ConfigResolver S → ResolveResult
  unfolding no_claims_is_empty_list
  default_result r = record {
    consent_required = r.default_consent_required;
    scheme = r.default_scheme;
    claims = no_claims_is_empty_list none;
  }

  -- The answer of the rule that matched.
  unfoldable pub apply_rule : CompiledRule S → ResolveRequest → LazyPayload → Exec S ResolveResult
  unfolding result_of
  apply_rule rule req body s =
      result_of rule (claims lib rule.matcher req (record { payload = body; facade = s }))

  -- The loop over the rules that are left.
  unfoldable pub resolve_from :
      ConfigResolver S → ResolveRequest → LazyPayload → List (CompiledRule S) → Exec S ResolveResult
  unfolding default_result
  resolve_from r req body [] s = (ok (default_result r), s)
  resolve_from r req body (rule ∷ rules) s =
      let later = resolve_from r req body rules s in
      if matches rule req then apply_rule rule req body s else later

  -- `Resolve`.
  unfoldable pub resolve : ConfigResolver S → ResolveRequest → Exec S ResolveResult
  resolve r req = resolve_from r req (new_lazy_payload req.body) r.rules
