-- ===== src/Settled/Rules.antt =====
-- Panics of a resolver that internal/resolver/config.go compiles.
use consent_owner_resolver.Prelude
use consent_owner_resolver.Matcher.JsonMatcher.{new_json_matcher}
use consent_owner_resolver.Matcher.StaticMatcher.{new_static_matcher}
use consent_owner_resolver.Prelude.{
  ℕ, zero, suc, ◌+◌, ◌<◌, ◌≤◌, ◌≡◌, ◌⊎◌, inl, inr, refl, sym, ap, ◌∙◌, Bool, true, false, Option,
  none, some, List, [], ◌∷◌, arith, Bytes, str, ◌==◌, All, length, Bool-cases, if◌then◌else◌, Error,
  Result, ok, err, panicked, ok-injective, some-injective, >>=-eq-ok,
}
use mathlib.Core.Path.{subst}
use consent_owner_resolver.Go.Library.{Library, Regexp, done}
use consent_owner_resolver.Types.{Slice, Claim, ResolveRequest, ResolveResult}
use consent_owner_resolver.RawConfig.{RawMatcher, RawRule, RawConfig, RawContractService}
use consent_owner_resolver.Contract.Client.{Network}
use consent_owner_resolver.Cache.{Facade}
use consent_owner_resolver.Lookup.{ContractLookup}
use consent_owner_resolver.Payload.{new_lazy_payload}
use consent_owner_resolver.Matcher.{Matcher, path, json, static, contract}
use consent_owner_resolver.Matcher.Frame.{Frame}
use consent_owner_resolver.Matcher.PathMatcher.{compiled, new_path_matcher}
use consent_owner_resolver.Matcher.ContractMatcher.{ContractMatcher, new_contract_matcher}
use consent_owner_resolver.Rules.{CompiledRule, ConfigResolver, matches}
use consent_owner_resolver.Resolve.{result_of, apply_rule, resolve_from, resolve}
use consent_owner_resolver.Config.{
  wrapped, path_pattern, check_contract_rule, validate_scheme, build_matcher, compile_rule,
  compile_rules, reject_dead_rules, contract_service, compile_config,
}
use consent_owner_resolver.Config.Laws.{wrapped-eq-ok}
use consent_owner_resolver.Settled.{Settles, Settles-cases}
use consent_owner_resolver.Settled.Client.{
  IsSettling, client_lookup-IsSettling, new_caching_lookup-IsSettling,
}
use consent_owner_resolver.Settled.Leaves.{IsRegexp, IsReady}
use consent_owner_resolver.Settled.Patterns.{new_path_matcher-IsCovered}
use consent_owner_resolver.Settled.Matchers.{claims-Settles}

module _ (lib : Library) {S : Type 0} where
  result_of-Settles :
      (rule : CompiledRule S) (r : Result (Slice Claim) × Frame S)
      → Settles r.0
      → Settles (result_of lib rule r).0
  unfolding result_of
  result_of-Settles rule (ok cs, f) h = tt
  result_of-Settles rule (err e, f) h = tt
  result_of-Settles rule (panicked, f) h = h

  resolve_from-Settles :
      (r : ConfigResolver S) (req : ResolveRequest) (rules : List (CompiledRule S)) (s : S)
      → All (λ rule. IsReady rule.matcher) rules
      → Settles (resolve_from lib r req (new_lazy_payload req.body) rules s).0
  unfolding resolve_from apply_rule
  resolve_from-Settles r req [] s h = tt
  resolve_from-Settles r req (rule ∷ rules) s h = elim (Bool-cases (matches rule req)) [
    | inl found ↦
        rw (resolve_from, found)
          (result_of-Settles rule _ (claims-Settles lib rule.matcher req s h.0))
    | inr skipped ↦ rw (resolve_from, skipped) (resolve_from-Settles r req rules s h.1)
  ]

  -- What `regexp.Compile` gives is a regular expression.
  module _ (regexps : (p : Bytes) (re : Regexp) → lib.compile p ≡ done re → IsRegexp re) where
    made :
        {A : Type 0} (m : Result A) (f : A → Matcher S) (out : Matcher S)
        → ((a : A) → m ≡ ok a → IsReady (f a))
        → Prelude.◌>>=◌ m (λ a. ok (f a)) ≡ ok out
        → IsReady out
    made m f out ready h =
        let (a, built, same) = >>=-eq-ok m _ h in subst IsReady (ok-injective same) (ready a built)

    refused :
        (b : Bool) (x y : Error) (out : Matcher S)
        → ◌≡◌ {A = Result (Matcher S)} (if b then err x else err y) (ok out)
        → IsReady out
    refused true x y out h = cc
    refused false x y out h = cc

    new_contract_matcher-IsSettling :
        (m : RawMatcher) (client : Option (ContractLookup S)) (sd : Bytes) (c : ContractMatcher S)
        → ((d : ContractLookup S) → client ≡ some d → IsSettling d)
        → new_contract_matcher m client sd ≡ ok c
        → IsSettling c.client
    unfolding new_contract_matcher
    new_contract_matcher-IsSettling m none sd c h e = cc
    new_contract_matcher-IsSettling m (some d) sd c h e = elim (Bool-cases (m.owner == [])) [
      | inl unset ↦ cc (rw (new_contract_matcher, unset) at e)
      | inr set ↦
          subst IsSettling (ap (λ x. x.client) (ok-injective (rw (new_contract_matcher, set) at e)))
            (h d refl)
    ]

    module _ (client : Option (ContractLookup S)) (sd : Bytes)
        (settling : (c : ContractLookup S) → client ≡ some c → IsSettling c) where
      build_matcher-IsReady :
          (m : RawMatcher) (out : Matcher S) → build_matcher lib client sd m ≡ ok out → IsReady out
      unfolding build_matcher
      build_matcher-IsReady m out h = elim (Bool-cases (m.type == str "path")) [
        | inl is_path ↦
            made (new_path_matcher lib m) path out (new_path_matcher-IsCovered lib regexps m)
              (rw (build_matcher, is_path) at h)
        | inr no_path ↦ elim (Bool-cases (m.type == str "json")) [
          | inl is_json ↦
              made (new_json_matcher m) json out (λ j e. tt)
                (rw (build_matcher, no_path, is_json) at h)
          | inr no_json ↦ elim (Bool-cases (m.type == str "static")) [
            | inl is_static ↦
                made (new_static_matcher m) static out (λ j e. tt)
                  (rw (build_matcher, no_path, no_json, is_static) at h)
            | inr no_static ↦ elim (Bool-cases (m.type == str "contract")) [
              | inl is_contract ↦
                  made (new_contract_matcher m client sd) contract out
                    (λ c. new_contract_matcher-IsSettling m client sd c settling)
                    (rw (build_matcher, no_path, no_json, no_static, is_contract) at h)
              | inr no_contract ↦
                  refused (m.type == []) _ _ out
                    (rw (build_matcher, no_path, no_json, no_static, no_contract) at h)
            ]
          ]
        ]
      ]

      module _ (default_scheme : Bytes) where
        compile_rule-IsReady :
            (i : ℕ) (rr : RawRule) (rule : CompiledRule S)
            → compile_rule lib client sd default_scheme i rr ≡ ok rule
            → IsReady rule.matcher
        unfolding compile_rule
        compile_rule-IsReady i rr rule h =
            let (re, compiled, h₁) = >>=-eq-ok (path_pattern lib _ rr.match.path_pattern) _ h in
            let (checked, gated, h₂) = >>=-eq-ok (check_contract_rule lib _ rr) _ h₁ in
            let (matcher, built, h₃) =
              >>=-eq-ok (wrapped _ (build_matcher lib client sd rr.matcher)) _ h₂ in
            let (valid, schemed, same) = >>=-eq-ok (validate_scheme lib _ _) _ h₃ in
            subst (λ r. IsReady r.matcher) (ok-injective same)
              (build_matcher-IsReady rr.matcher matcher (wrapped-eq-ok _ _ matcher built))

        compile_rules-IsReady :
            (i : ℕ) (rrs : List RawRule) (rules : List (CompiledRule S))
            → compile_rules lib client sd default_scheme i rrs ≡ ok rules
            → All (λ rule. IsReady rule.matcher) rules
        unfolding compile_rules
        compile_rules-IsReady i [] rules h =
            subst (All (λ rule. IsReady rule.matcher)) (ok-injective h) tt
        compile_rules-IsReady i (rr ∷ rrs) rules h =
            let (rule, compiled, h₁) =
              >>=-eq-ok (compile_rule lib client sd default_scheme i rr) _ h in
            let (later, walked, same) =
              >>=-eq-ok (compile_rules lib client sd default_scheme (suc i) rrs) _ h₁ in
            subst (All (λ rule. IsReady rule.matcher)) (ok-injective same) (
              compile_rule-IsReady i rr rule compiled,
              compile_rules-IsReady (suc i) rrs later walked,
            )

module _ (lib : Library) {W : Type 0} (net : Network W) where
  contract_service-IsSettling :
      (cs : Option RawContractService) (out : Option (ContractLookup (Facade W)) × Bytes)
      (c : ContractLookup (Facade W))
      → contract_service lib net cs ≡ ok out
      → out.0 ≡ some c
      → IsSettling c
  unfolding contract_service
  contract_service-IsSettling none out c h e = cc (ap (λ x. x.0) (ok-injective h) ∙ e)
  contract_service-IsSettling (some cs) out c h e = elim (Bool-cases (cs.url == [])) [
    | inl unset ↦ cc (rw (contract_service, unset) at h)
    | inr set ↦
        subst IsSettling
          (some-injective (ap (λ x. x.0) (ok-injective (rw (contract_service, set) at h)) ∙ e))
          (new_caching_lookup-IsSettling net.now _ (client_lookup-IsSettling lib.quote net _) _)
  ]

  pub resolve-Settles :
      (raw : RawConfig) (r : ConfigResolver (Facade W))
      → ((p : Bytes) (re : Regexp) → lib.compile p ≡ done re → IsRegexp re)
      → compile_config lib net raw ≡ ok r
      → (req : ResolveRequest) (s : Facade W) → Settles (resolve lib r req s).0
  unfolding compile_config resolve
  resolve-Settles raw r regexps h req s =
      let (valid, schemed, h₁) = >>=-eq-ok (validate_scheme lib _ _) _ h in
      let (service, served, h₂) = >>=-eq-ok (contract_service lib net raw.contract_service) _ h₁ in
      let (rules, compiled, h₃) =
        >>=-eq-ok (compile_rules lib service.0 service.1 _ 0 raw.rules) _ h₂ in
      let (alive, reached, same) = >>=-eq-ok (reject_dead_rules rules) _ h₃ in
      let ready : All (λ rule. IsReady rule.matcher) rules =
        compile_rules-IsReady lib regexps service.0 service.1
          (λ c. contract_service-IsSettling raw.contract_service service c served) _ 0 raw.rules
          rules compiled in
      resolve_from-Settles lib r req r.rules s
        (subst (λ x. All (λ rule. IsReady rule.matcher) x.rules) (ok-injective same) ready)

  -- For a library whose regular expressions give a text for each of their groups: a resolver that is
  -- compiled from a configuration answers every request, with a result or with an error, whatever
  -- the state behind the contract lookup; it never panics.
  pub resolve_no_panic :
      (raw : RawConfig) (r : ConfigResolver (Facade W)) (req : ResolveRequest) (s : Facade W)
      → ((p : Bytes) (re : Regexp) → lib.compile p ≡ done re → IsRegexp re)
      → compile_config lib net raw ≡ ok r
      → ((out : ResolveResult) × ((resolve lib r req s).0 ≡ ok out))
        ⊎ ((e : Error) × ((resolve lib r req s).0 ≡ err e))
  resolve_no_panic raw r req s regexps h = Settles-cases _ (resolve-Settles raw r regexps h req s)
