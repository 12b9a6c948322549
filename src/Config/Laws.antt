-- ===== src/Config/Laws.antt =====
-- Laws of Parse in internal/resolver/config.go, behind the decoding of the file.
use consent_owner_resolver.Prelude.{
  ℕ, suc, true, false, Option, none, some, List, [], ◌∷◌, ◌≡◌, ◌≢◌, ◌⊎◌, inl, inr, refl, sym, ◌∙◌,
  Bool-cases, arith, Bytes, str, ◌==◌, eq_iff, All, Any, Result, ok, err, panicked, >>=-eq-ok,
  ok-injective,
}
use mathlib.Core.Path.{subst}
use consent_owner_resolver.Go.Library.{Library, Regexp}
use consent_owner_resolver.RawConfig.{RawMatcher, RawRule, RawConfig}
use consent_owner_resolver.Contract.Client.{Network}
use consent_owner_resolver.Lookup.{ContractLookup}
use consent_owner_resolver.Cache.{Facade}
use consent_owner_resolver.Matcher.{Matcher, path, json, static, contract}
use consent_owner_resolver.Matcher.StaticMatcher.{new_static_matcher}
use consent_owner_resolver.Rules.{CompiledRule, ConfigResolver, is_nil, is_catch_all}
use consent_owner_resolver.Config.{
  valid_schemes, contains, validate_scheme, check_contract_rule, path_pattern, build_matcher,
  wrapped, compile_rule, compile_rules, reject_dead_rules, contract_service, compile_config,
}

-- A scheme of the closed set.
abbrev pub IsScheme : Bytes → Type 0
IsScheme s = Any (λ t. t ≡ s) valid_schemes

contains-Any : (xs : List Bytes) (s : Bytes) → contains xs s ≡ true → Any (λ t. t ≡ s) xs
unfolding contains
contains-Any [] s h = cc
contains-Any (x ∷ xs) s h = ground (arith, eq_iff x s, contains-Any xs s)

validate_scheme-IsScheme :
    (lib : Library) (field s : Bytes) (u : Unit {0})
    → validate_scheme lib field s ≡ ok u
    → IsScheme s
unfolding validate_scheme
validate_scheme-IsScheme lib field s u h = contains-Any valid_schemes s (ground arith)

-- The owner that a static matcher is configured with is not empty.
abbrev pub HasOwner : {S : Type 0} → Matcher S → Type 0
HasOwner (static m) = m.owner ≢ []
HasOwner m = Unit

-- A contract matcher, which looks contracts up for nothing if no consent is asked for.
abbrev pub IsContract : {S : Type 0} → Matcher S → Type 0
IsContract (contract m) = Unit
IsContract m = ⊥

pub record IsSoundRule {S : Type 0} (rule : CompiledRule S) : Type 0 where
  pub scheme : IsScheme rule.scheme
  pub owner : HasOwner rule.matcher
  pub gated : IsContract rule.matcher → rule.consent_required ≡ true

pub wrapped-eq-ok :
    {A : Type 0} (prefix : Bytes) (r : Result A) (a : A) → wrapped prefix r ≡ ok a → r ≡ ok a
unfolding wrapped
wrapped-eq-ok prefix (ok a') a h = h
wrapped-eq-ok prefix (err e) a h = cc
wrapped-eq-ok prefix panicked a h = cc

check_contract_rule-gated :
    (lib : Library) (label : Bytes) (rr : RawRule) (u : Unit {0})
    → check_contract_rule lib label rr ≡ ok u
    → (rr.matcher.type == str "contract") ≡ true
    → rr.consent_required ≡ true
unfolding check_contract_rule
check_contract_rule-gated lib label rr u h is_contract = ground arith

module _ (lib : Library) {S : Type 0} (client : Option (ContractLookup S)) (sd : Bytes) where
  build_matcher-HasOwner :
      (m : RawMatcher) (out : Matcher S) → build_matcher lib client sd m ≡ ok out → HasOwner out
  unfolding build_matcher new_static_matcher
  build_matcher-HasOwner m (path p) h = tt
  build_matcher-HasOwner m (json p) h = tt
  build_matcher-HasOwner m (static p) h = ground (arith, eq_iff m.owner [])
  build_matcher-HasOwner m (contract p) h = tt

  build_matcher-IsContract :
      (m : RawMatcher) (out : Matcher S)
      → build_matcher lib client sd m ≡ ok out
      → IsContract out
      → (m.type == str "contract") ≡ true
  unfolding build_matcher
  build_matcher-IsContract m (path p) h k = absurd k
  build_matcher-IsContract m (json p) h k = absurd k
  build_matcher-IsContract m (static p) h k = absurd k
  build_matcher-IsContract m (contract p) h k = ground arith

  module _ (default_scheme : Bytes) where
    compile_rule-IsSoundRule :
        (i : ℕ) (rr : RawRule) (rule : CompiledRule S)
        → compile_rule lib client sd default_scheme i rr ≡ ok rule
        → IsSoundRule rule
    unfolding compile_rule
    compile_rule-IsSoundRule i rr rule h =
        let (re, compiled, h₁) = >>=-eq-ok (path_pattern lib _ rr.match.path_pattern) _ h in
        let (checked, gated, h₂) = >>=-eq-ok (check_contract_rule lib _ rr) _ h₁ in
        let (matcher, wrapped_ok, h₃) =
          >>=-eq-ok (wrapped _ (build_matcher lib client sd rr.matcher)) _ h₂ in
        let (valid, schemed, same) = >>=-eq-ok (validate_scheme lib _ _) _ h₃ in
        let built = wrapped-eq-ok _ _ matcher wrapped_ok in
        subst IsSoundRule (ok-injective same) (record {
          scheme = validate_scheme-IsScheme lib _ _ valid schemed;
          owner = build_matcher-HasOwner rr.matcher matcher built;
          gated = λ k.
              check_contract_rule-gated lib _ rr checked gated
                (build_matcher-IsContract rr.matcher matcher built k);
        })

    compile_rules-IsSoundRule :
        (i : ℕ) (rrs : List RawRule) (rules : List (CompiledRule S))
        → compile_rules lib client sd default_scheme i rrs ≡ ok rules
        → All IsSoundRule rules
    unfolding compile_rules
    compile_rules-IsSoundRule i [] rules h = subst (All IsSoundRule) (ok-injective h) tt
    compile_rules-IsSoundRule i (rr ∷ rrs) rules h =
        let (rule, compiled, h₁) = >>=-eq-ok (compile_rule lib client sd default_scheme i rr) _ h in
        let (later, walked, same) =
          >>=-eq-ok (compile_rules lib client sd default_scheme (suc i) rrs) _ h₁ in
        subst (All IsSoundRule) (ok-injective same) (
          compile_rule-IsSoundRule i rr rule compiled,
          compile_rules-IsSoundRule (suc i) rrs later walked,
        )

-- A rule that names a service or has a path pattern.
abbrev pub HasCondition : {S : Type 0} → CompiledRule S → Type 0
HasCondition rule = (rule.service ≢ []) ⊎ ((re : Regexp) × (rule.path_re ≡ some re))

-- Every rule but the last names a service or has a path pattern.
abbrev pub OnlyLastIsEmpty : {S : Type 0} → List (CompiledRule S) → Type 0
OnlyLastIsEmpty [] = Unit
OnlyLastIsEmpty (rule ∷ []) = Unit
OnlyLastIsEmpty (rule ∷ later ∷ rules) = HasCondition rule × OnlyLastIsEmpty (later ∷ rules)

is_nil-some : (o : Option Regexp) → is_nil o ≡ false → (re : Regexp) × (o ≡ some re)
unfolding is_nil
is_nil-some none h = cc
is_nil-some (some re) h = (re, refl)

has_condition : {S : Type 0} (rule : CompiledRule S) → is_catch_all rule ≡ false → HasCondition rule
unfolding is_catch_all
has_condition rule h = elim (Bool-cases (rule.service == [])) [
  | inl unset ↦ inr (is_nil-some rule.path_re (rw unset at h))
  | inr set ↦ inl (λ e. cc (sym set ∙ (eq_iff rule.service []).1 e))
]

reject_dead_rules-OnlyLast :
    {S : Type 0} (rules : List (CompiledRule S)) (u : Unit {0})
    → reject_dead_rules rules ≡ ok u
    → OnlyLastIsEmpty rules
unfolding reject_dead_rules
reject_dead_rules-OnlyLast [] u h = tt
reject_dead_rules-OnlyLast (rule ∷ []) u h = tt
reject_dead_rules-OnlyLast (rule ∷ later ∷ rules) u h =
    ground (arith, has_condition rule, reject_dead_rules-OnlyLast (later ∷ rules) u)

pub record IsSound {S : Type 0} (r : ConfigResolver S) : Type 0 where
  pub default_scheme : IsScheme r.default_scheme
  pub rules : All IsSoundRule r.rules
  pub conditions : OnlyLastIsEmpty r.rules

-- A configuration that compiles is sound: each scheme is of the closed set, static rules have an
-- owner, contract rules ask for consent, and every rule but the last names a service or has a path
-- pattern; the pattern may match every path.
pub compile_config-IsSound :
    (lib : Library) {W : Type 0} (net : Network W) (raw : RawConfig) (r : ConfigResolver (Facade W))
    → compile_config lib net raw ≡ ok r
    → IsSound r
unfolding compile_config
compile_config-IsSound lib net raw r h =
    let (valid, schemed, h₁) = >>=-eq-ok (validate_scheme lib _ _) _ h in
    let (service, served, h₂) = >>=-eq-ok (contract_service lib net raw.contract_service) _ h₁ in
    let (rules, compiled, h₃) =
      >>=-eq-ok (compile_rules lib service.0 service.1 _ 0 raw.rules) _ h₂ in
    let (alive, reached, same) = >>=-eq-ok (reject_dead_rules rules) _ h₃ in
    subst IsSound (ok-injective same) (record {
      default_scheme = validate_scheme-IsScheme lib _ _ valid schemed;
      rules = compile_rules-IsSoundRule lib service.0 service.1 _ 0 raw.rules rules compiled;
      conditions = reject_dead_rules-OnlyLast rules alive reached;
    })
