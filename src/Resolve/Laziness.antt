-- ===== src/Resolve/Laziness.antt =====
-- Resolve of internal/resolver/config.go, on requests that differ in their body.
use consent_owner_resolver.Prelude.{Option, List, ◌≡◌, refl, sym, ◌∙◌, Result, ok, err, panicked}
use consent_owner_resolver.Go.Library.{Library}
use consent_owner_resolver.Types.{Slice, Claim, Body, ResolveRequest}
use consent_owner_resolver.Payload.{LazyPayload, new_lazy_payload}
use consent_owner_resolver.Matcher.{Matcher, path, json, static, contract, claims}
use consent_owner_resolver.Matcher.PathMatcher.{path_claims}
use consent_owner_resolver.Rules.{CompiledRule, ConfigResolver, matches}
use consent_owner_resolver.Resolve.{result_of, apply_rule, resolve}
use consent_owner_resolver.Resolve.Laws.{IsFirstMatch}
use consent_owner_resolver.Resolve.Safety.{resolve-first}

-- The matchers that never read the body.
abbrev pub IgnoresBody : {S : Type 0} → Matcher S → Type 0
IgnoresBody (path m) = Unit
IgnoresBody (json m) = ⊥
IgnoresBody (static m) = Unit
IgnoresBody (contract m) = ⊥

module _ (lib : Library) {S : Type 0} where
  result_of-payload :
      (rule : CompiledRule S) (r : Result (Slice Claim)) (p q : LazyPayload) (s : S)
      → result_of lib rule (r, record { payload = p; facade = s })
        ≡ result_of lib rule (r, record { payload = q; facade = s })
  unfolding result_of
  result_of-payload rule (ok cs) p q s = refl
  result_of-payload rule (err e) p q s = refl
  result_of-payload rule panicked p q s = refl

  claims-body :
      (rule : CompiledRule S) (m : Matcher S) (req : ResolveRequest) (b : Option Body)
      (p q : LazyPayload) (s : S)
      → IgnoresBody m
      → result_of lib rule (claims lib m req (record { payload = p; facade = s }))
        ≡ result_of lib rule
            (claims lib m (record req { body = b }) (record { payload = q; facade = s }))
  unfolding claims path_claims
  claims-body rule (path m) req b p q s h = result_of-payload rule _ p q s
  claims-body rule (json m) req b p q s h = absurd h
  claims-body rule (static m) req b p q s h = result_of-payload rule _ p q s
  claims-body rule (contract m) req b p q s h = absurd h

  matches-body :
      (rule : CompiledRule S) (req : ResolveRequest) (b : Option Body)
      → matches rule (record req { body = b }) ≡ matches rule req
  unfolding matches
  matches-body rule req b = refl

  IsFirstMatch-body :
      (req : ResolveRequest) (b : Option Body) (rules : List (CompiledRule S))
      (rule : CompiledRule S)
      → IsFirstMatch lib req rules rule
      → IsFirstMatch lib (record req { body = b }) rules rule
  unfolding matches
  IsFirstMatch-body req b rules rule first = record {
    before = first.before;
    after = first.after;
    listed = first.listed;
    skipped = first.skipped;
    matched = first.matched;
  }

  -- Where the first rule that matches has a path or a static matcher, the body makes no difference:
  -- any other body, an undecodable one too, has the same result and leaves the same state.
  pub resolve-body :
      (r : ConfigResolver S) (req : ResolveRequest) (b : Option Body) (s : S)
      (rule : CompiledRule S)
      → IsFirstMatch lib req r.rules rule
      → IgnoresBody rule.matcher
      → resolve lib r (record req { body = b }) s ≡ resolve lib r req s
  unfolding apply_rule
  resolve-body r req b s rule first ignores =
      resolve-first lib r (record req { body = b }) s rule
        (IsFirstMatch-body req b r.rules rule first)
      ∙ sym (
          claims-body rule rule.matcher req b (new_lazy_payload req.body) (new_lazy_payload b) s
            ignores)
      ∙ sym (resolve-first lib r req s rule first)
