-- ===== src/Policy/Followed.antt =====
-- Resolve of internal/resolver/config.go and the route /resolve of internal/api/handler.go, against
-- the policy of the configuration.
use consent_owner_resolver.Prelude.{
  ℕ, suc, Bool, true, false, ◌&&◌, ◌||◌, not, Option, List, [], ◌∷◌, ◌≡◌, refl, sym, ap, ◌∙◌, arith,
  inl, inr, Bytes, ◌==◌, Bool-cases, if◌then◌else◌, Result, ok, err, panicked, >>=-eq-ok,
  ok-injective,
}
use mathlib.Core.Path.{subst}
use consent_owner_resolver.Prelude.Int.{ℤ}
use consent_owner_resolver.Go.Library.{Library, Regexp, Attempt, done, failed}
use consent_owner_resolver.Types.{Slice, Claim, ResolveRequest, ResolveResult}
use consent_owner_resolver.RawConfig.{RawRule, RawConfig}
use consent_owner_resolver.Payload.{LazyPayload, new_lazy_payload}
use consent_owner_resolver.Contract.Client.{Network}
use consent_owner_resolver.Lookup.{ContractLookup}
use consent_owner_resolver.Cache.{Facade}
use consent_owner_resolver.Matcher.Frame.{Frame}
use consent_owner_resolver.Rules.{CompiledRule, ConfigResolver, matches, path_matches}
use consent_owner_resolver.Resolve.{result_of, apply_rule, default_result, resolve_from, resolve}
use consent_owner_resolver.Config.{
  path_pattern, compiled_pattern, validate_scheme, check_contract_rule, build_matcher, wrapped,
  compile_rule, compile_rules, reject_dead_rules, contract_service, compile_config,
}
use consent_owner_resolver.Api.Handler.{
  HttpRequest, Decoding, decoded, result, Options, Reply, Shared, new_handler, handle_resolve,
}
use consent_owner_resolver.Api.Handler.Laws.{handle_resolve-IsServed}
use consent_owner_resolver.Policy.{
  Policy, first_of, found_by, scheme_of, is_meant, policy_from, policy,
}

-- The policy that an answer follows.
abbrev pub followed : ResolveResult → Policy
followed out = record { consent_required = out.consent_required; scheme = out.scheme }

module _ (lib : Library) where
  compiled-found :
      (label : Bytes) (o : Attempt Regexp) (re : Option Regexp) (p : Bytes)
      → compiled_pattern label o ≡ ok re
      → path_matches re p ≡ found_by o p
  unfolding compiled_pattern path_matches
  compiled-found label (done re) o p h =
      subst (λ x. path_matches x p ≡ re.match_string p) (ok-injective h) refl
  compiled-found label (failed why) o p h = cc

  pattern-found :
      (label pattern : Bytes) (re : Option Regexp) (p : Bytes)
      → path_pattern lib label pattern ≡ ok re
      → path_matches re p ≡ (pattern == [] || found_by (lib.compile pattern) p)
  unfolding path_pattern path_matches
  pattern-found label pattern re p h = elim (Bool-cases (pattern == [])) [
    | inl empty ↦
        rw empty
          (subst (λ x. path_matches x p ≡ true) (ok-injective (rw (empty, path_pattern) at h)) refl)
    | inr other ↦
        rw other (compiled-found label (lib.compile pattern) re p (rw (other, path_pattern) at h))
  ]

  module _ {S : Type 0} where
    result_of-followed :
        (rule : CompiledRule S) (r : Result (Slice Claim) × Frame S) (out : ResolveResult)
        → (result_of lib rule r).0 ≡ ok out
        → followed out ≡ record { consent_required = rule.consent_required; scheme = rule.scheme }
    unfolding result_of
    result_of-followed rule (ok cs, f) out h = ap followed (sym (ok-injective h))
    result_of-followed rule (err e, f) out h = cc
    result_of-followed rule (panicked, f) out h = cc

    apply_rule-followed :
        (rule : CompiledRule S) (req : ResolveRequest) (body : LazyPayload) (s : S)
        (out : ResolveResult)
        → (apply_rule lib rule req body s).0 ≡ ok out
        → followed out ≡ record { consent_required = rule.consent_required; scheme = rule.scheme }
    unfolding apply_rule
    apply_rule-followed rule req body s out h = result_of-followed rule _ out h

    module _ (client : Option (ContractLookup S)) (sd : Bytes) (raw : RawConfig) where
      -- A rule as it is written, and as it is compiled.
      record IsCompiled (rr : RawRule) (rule : CompiledRule S) : Type 0 where
        meant : (req : ResolveRequest) → matches rule req ≡ is_meant lib rr req
        flag : rule.consent_required ≡ rr.consent_required
        scheme : rule.scheme ≡ first_of rr.matcher.scheme (scheme_of raw)

      compile_rule-IsCompiled :
          (i : ℕ) (rr : RawRule) (rule : CompiledRule S)
          → compile_rule lib client sd (scheme_of raw) i rr ≡ ok rule
          → IsCompiled rr rule
      unfolding compile_rule matches is_meant
      compile_rule-IsCompiled i rr rule h =
          let (re, compiled, h₁) = >>=-eq-ok (path_pattern lib _ rr.match.path_pattern) _ h in
          let (checked, gated, h₂) = >>=-eq-ok (check_contract_rule lib _ rr) _ h₁ in
          let (matcher, built, h₃) =
            >>=-eq-ok (wrapped _ (build_matcher lib client sd rr.matcher)) _ h₂ in
          let (valid, schemed, same) = >>=-eq-ok (validate_scheme lib _ _) _ h₃ in
          subst (IsCompiled rr) (ok-injective same) (record {
            meant = λ req.
                meets (rr.match.service == []) (rr.match.service == req.resource.service) _ _
                  (pattern-found _ rr.match.path_pattern re req.resource.path compiled);
            flag = refl;
            scheme = refl;
          })
        where
          meets : (a b c d : Bool) → c ≡ d → (if not a && not b then false else c) ≡ ((a || b) && d)
          meets a b c d h = ground arith

      followed-from :
          (r : ConfigResolver S) (req : ResolveRequest) (body : LazyPayload) (s : S) (i : ℕ)
          (rrs : List RawRule) (rules : List (CompiledRule S)) (out : ResolveResult)
          → r.default_consent_required ≡ raw.default_consent_required
          → r.default_scheme ≡ scheme_of raw
          → compile_rules lib client sd (scheme_of raw) i rrs ≡ ok rules
          → (resolve_from lib r req body rules s).0 ≡ ok out
          → followed out ≡ policy_from lib raw rrs req
      unfolding compile_rules resolve_from policy_from default_result
      followed-from r req body s i [] rules out flag scheme compiled h =
          let none_left =
            subst (λ rules. (resolve_from lib r req body rules s).0 ≡ ok out)
              (sym (ok-injective compiled)) h in
          ap followed (sym (ok-injective none_left)) ∙ rw (flag, scheme) refl
      followed-from r req body s i (rr ∷ rrs) rules out flag scheme compiled h =
          let (rule, first, h₁) =
            >>=-eq-ok (compile_rule lib client sd (scheme_of raw) i rr) _ compiled in
          let (later, others, same) =
            >>=-eq-ok (compile_rules lib client sd (scheme_of raw) (suc i) rrs) _ h₁ in
          let fine = compile_rule-IsCompiled i rr rule first in
          let listed =
            subst (λ rules. (resolve_from lib r req body rules s).0 ≡ ok out)
              (sym (ok-injective same)) h in
          elim (Bool-cases (matches rule req)) [
            | inl matched ↦
                rw (sym (fine.meant req), matched)
                  (apply_rule-followed rule req body s out (rw (matched, resolve_from) at listed)
                    ∙ rw (fine.flag, fine.scheme) refl)
            | inr other ↦
                rw (sym (fine.meant req), other)
                  (followed-from r req body s (suc i) rrs later out flag scheme others
                    (rw (other, resolve_from) at listed))
          ]

-- An answer of a resolver that is compiled from a configuration has the flag of consent and the
-- scheme of the first rule, as it is written, that is meant for the request, and the defaults if
-- there is none.
pub resolve-policy :
    (lib : Library) {W : Type 0} (net : Network W) (raw : RawConfig) (r : ConfigResolver (Facade W))
    (req : ResolveRequest) (s : Facade W) (out : ResolveResult)
    → compile_config lib net raw ≡ ok r
    → (resolve lib r req s).0 ≡ ok out
    → followed out ≡ policy lib raw req
unfolding compile_config resolve policy
resolve-policy lib net raw r req s out compiled h =
    let (valid, schemed, h₁) = >>=-eq-ok (validate_scheme lib _ _) _ compiled in
    let (service, served, h₂) = >>=-eq-ok (contract_service lib net raw.contract_service) _ h₁ in
    let (rules, walked, h₃) =
      >>=-eq-ok (compile_rules lib service.0 service.1 _ 0 raw.rules) _ h₂ in
    let (alive, reached, same) = >>=-eq-ok (reject_dead_rules rules) _ h₃ in
    let made = ok-injective same in
    followed-from lib service.0 service.1 raw r req (new_lazy_payload req.body) s 0 raw.rules rules
      out (ap (λ x. x.default_consent_required) (sym made)) (ap (λ x. x.default_scheme) (sym made))
      walked
      (subst (λ rules. (resolve_from lib r req (new_lazy_payload req.body) rules s).0 ≡ ok out)
        (ap (λ x. x.rules) (sym made)) h)

-- A reply that carries a result, from the handler of a resolver that is compiled from a
-- configuration, answers a request that the body decodes to, with the flag of consent and the scheme
-- that the configuration, as it is written, has for that request.
pub handle_resolve-policy :
    (lib : Library) {W Fl : Type 0} (net : Network W) (raw : RawConfig)
    (r : ConfigResolver (Facade W)) (opts : Options) (digest : Bytes → Bytes)
    (decode : ℤ → Bytes → Decoding) (q : HttpRequest) (s : Shared (Facade W) Fl) (reply : Reply)
    (out : ResolveResult)
    → compile_config lib net raw ≡ ok r
    → (handle_resolve lib.quote digest (new_handler (resolve lib r) opts) decode q s).0 ≡ ok reply
    → reply.payload ≡ result out
    → (req : ResolveRequest) × (decode (new_handler (resolve lib r) opts).max_body_bytes q.body
        ≡ decoded req)
      × (followed out ≡ policy lib raw req)
unfolding new_handler
handle_resolve-policy lib net raw r opts digest decode q s reply out compiled h p =
    let answer =
      handle_resolve-IsServed lib.quote digest (new_handler (resolve lib r) opts) decode q s reply
        out h p in
    (
      answer.request,
      answer.body,
      resolve-policy lib net raw r answer.request s.facade out compiled answer.resolved,
    )
