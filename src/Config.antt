-- ===== src/Config.antt =====
-- internal/resolver/config.go: the compilation of a configuration.
pub mod Laws
use consent_owner_resolver.Prelude.{
  ℕ, zero, suc, Bool, true, false, not, ◌&&◌, Option, none, some, List, [], ◌∷◌, ◌++◌, Bytes, str,
  ◌==◌, if◌then◌else◌, error, Error, wrap, Result, ok, err, panicked, ◌>>=◌,
}
use consent_owner_resolver.Prelude.Int.{ℤ}
use consent_owner_resolver.Go.Library.{Library, Regexp, Attempt, done, failed}
use consent_owner_resolver.Go.Strconv.{itoa}
use consent_owner_resolver.Types.{scheme_identifier, scheme_email, scheme_did}
use consent_owner_resolver.RawConfig.{RawContractService, RawMatch, RawMatcher, RawRule, RawConfig}
use consent_owner_resolver.Contract.Client.{Network, new_client}
use consent_owner_resolver.Lookup.{ContractLookup}
use consent_owner_resolver.Cache.{Facade, client_lookup, new_caching_lookup, resource_cache_ttl}
use consent_owner_resolver.Matcher.{Matcher, path, json, static, contract}
use consent_owner_resolver.Matcher.PathMatcher.{new_path_matcher}
use consent_owner_resolver.Matcher.JsonMatcher.{new_json_matcher}
use consent_owner_resolver.Matcher.StaticMatcher.{new_static_matcher}
use consent_owner_resolver.Matcher.ContractMatcher.{new_contract_matcher}
use consent_owner_resolver.Rules.{CompiledRule, ConfigResolver, is_catch_all}

abbrev pub matcher_path : Bytes
matcher_path = str "path"

abbrev pub matcher_json : Bytes
matcher_json = str "json"

abbrev pub matcher_static : Bytes
matcher_static = str "static"

abbrev pub matcher_contract : Bytes
matcher_contract = str "contract"

abbrev pub fallback_scheme : Bytes
fallback_scheme = scheme_identifier

abbrev pub valid_schemes : List Bytes
valid_schemes = scheme_identifier ∷ scheme_email ∷ scheme_did ∷ []

-- `slices.Contains(validSchemes, scheme)`
unfoldable pub contains : List Bytes → Bytes → Bool
contains [] scheme = false
contains (x ∷ xs) scheme = if x == scheme then true else contains xs scheme

unfoldable pub in_rule : Bytes → Bytes
in_rule label = str "rule " ++ label ++ str ": "

unfoldable pub wrapped : {A : Type 0} → Bytes → Result A → Result A
wrapped prefix (ok a) = ok a
wrapped prefix (err e) = err (wrap prefix e)
wrapped prefix panicked = panicked

unfoldable pub compiled_pattern : Bytes → Attempt Regexp → Result (Option Regexp)
unfolding in_rule
compiled_pattern label (done re) = ok (some re)
compiled_pattern label (failed why) =
    err (error (in_rule label ++ str "invalid match.pathPattern: " ++ why))

module _ (lib : Library) where
  unfoldable pub validate_scheme : Bytes → Bytes → Result (Unit {0})
  unfolding contains
  validate_scheme field scheme =
      if contains valid_schemes scheme
      then ok tt
      else err (
          error (
            field
            ++ str ": unknown scheme "
            ++ lib.quote scheme
            ++ str " (expected one of [identifier email did])"))

  -- The refusal of a contract rule that asks for no consent.
  unfoldable pub check_contract_rule : Bytes → RawRule → Result (Unit {0})
  unfolding in_rule
  check_contract_rule label rr =
      if rr.matcher.type == matcher_contract && not rr.consent_required
      then err (
          error (
            in_rule label
            ++ str "a "
            ++ lib.quote matcher_contract
            ++ str " matcher requires consentRequired:true (containsPII selects which resource a "
            ++ str "claim names, it does not decide whether consent is checked)"))
      else ok tt

  unfoldable pub path_pattern : Bytes → Bytes → Result (Option Regexp)
  unfolding compiled_pattern
  path_pattern label pattern =
      if pattern == [] then ok none else compiled_pattern label (lib.compile pattern)

  module _ {S : Type 0} (client : Option (ContractLookup S)) (provider_sd : Bytes) where
    unfoldable pub build_matcher : RawMatcher → Result (Matcher S)
    build_matcher m =
        if m.type == matcher_path
        then (new_path_matcher lib m >>= λ p. ok (path p))
        else if m.type == matcher_json
        then (new_json_matcher m >>= λ j. ok (json j))
        else if m.type == matcher_static
        then (new_static_matcher m >>= λ s. ok (static s))
        else if m.type == matcher_contract
        then (new_contract_matcher m client provider_sd >>= λ c. ok (contract c))
        else if m.type == []
        then err (
            error (
              str "matcher.type is required (one of "
              ++ lib.quote matcher_path
              ++ str ", "
              ++ lib.quote matcher_json
              ++ str ", "
              ++ lib.quote matcher_static
              ++ str ", "
              ++ lib.quote matcher_contract
              ++ str ")"))
        else err (error (str "unknown matcher.type " ++ lib.quote m.type))

    -- One round of the loop over the rules; `i` is the rule's index.
    unfoldable pub compile_rule : Bytes → ℕ → RawRule → Result (CompiledRule S)
    unfolding path_pattern wrapped in_rule
    compile_rule default_scheme i rr = do
      let label = if rr.name == [] then b'#' ∷ itoa i else rr.name
      path_re ← path_pattern label rr.match.path_pattern
      checked ← check_contract_rule label rr
      matcher ← wrapped (in_rule label) (build_matcher rr.matcher)
      let scheme = if rr.matcher.scheme == [] then default_scheme else rr.matcher.scheme
      valid ← validate_scheme (in_rule label ++ str "matcher.scheme") scheme
      ok (record {
        name = label;
        service = rr.match.service;
        path_re = path_re;
        consent_required = rr.consent_required;
        scheme = scheme;
        matcher = matcher;
      })

    unfoldable pub compile_rules : Bytes → ℕ → List RawRule → Result (List (CompiledRule S))
    compile_rules default_scheme i [] = ok []
    compile_rules default_scheme i (rr ∷ rrs) = do
      rule ← compile_rule default_scheme i rr
      rules ← compile_rules default_scheme (suc i) rrs
      ok (rule ∷ rules)

-- A catch-all may only be the last rule.
unfoldable pub reject_dead_rules : {S : Type 0} → List (CompiledRule S) → Result (Unit {0})
reject_dead_rules [] = ok tt
reject_dead_rules (rule ∷ []) = ok tt
reject_dead_rules (rule ∷ later ∷ rules) =
    let rest = reject_dead_rules (later ∷ rules) in
    if is_catch_all rule
    then err (
        error (
          str "rule "
          ++ rule.name
          ++ str " has an empty match, so it matches every request and rule "
          ++ later.name
          ++ str " (and any after it) can never be reached; move it last or give it a match"))
    else rest

module _ (lib : Library) {W : Type 0} (net : Network W) where
  -- The contract lookup of the configuration, and the provider's self-description.
  unfoldable pub contract_service :
      Option RawContractService → Result (Option (ContractLookup (Facade W)) × Bytes)
  contract_service none = ok (none, [])
  contract_service (some cs) =
      if cs.url == []
      then err (error (str "contractService.url is required when contractService is set"))
      else ok (
        some (
            new_caching_lookup net.now
              (client_lookup lib.quote net (new_client cs.url cs.timeout_ms))
              (resource_cache_ttl cs.resource_cache_ttl_ms)),
        cs.provider_self_description,
      )

  -- `Parse`, behind the decoding of the JSON text.
  unfoldable pub compile_config : RawConfig → Result (ConfigResolver (Facade W))
  compile_config raw = do
    let default_scheme = if raw.default_scheme == [] then fallback_scheme else raw.default_scheme
    valid ← validate_scheme lib (str "defaultScheme") default_scheme
    service ← contract_service raw.contract_service
    rules ← compile_rules lib service.0 service.1 default_scheme 0 raw.rules
    alive ← reject_dead_rules rules
    ok (record {
      default_consent_required = raw.default_consent_required;
      default_scheme = default_scheme;
      rules = rules;
    })

  unfoldable pub parsed : Attempt RawConfig → Result (ConfigResolver (Facade W))
  parsed (failed why) = err (error (str "parse config: " ++ why))
  parsed (done raw) = compile_config raw

  -- `Parse`; `decode` is the strict decoder of the standard library.
  unfoldable pub parse : (Bytes → Attempt RawConfig) → Bytes → Result (ConfigResolver (Facade W))
  unfolding parsed
  parse decode bytes = parsed (decode bytes)

  unfoldable pub loaded :
      (Bytes → Attempt RawConfig) → Bytes → Attempt Bytes → Result (ConfigResolver (Facade W))
  unfolding parse
  loaded decode file (failed why) =
      err (error (str "read config " ++ lib.quote file ++ str ": " ++ why))
  loaded decode file (done bytes) = parse decode bytes

  -- `Load`; `read_file` is `os.ReadFile`.
  unfoldable pub load :
      (Bytes → Attempt Bytes)
      → (Bytes → Attempt RawConfig)
      → Bytes
      → Result (ConfigResolver (Facade W))
  unfolding loaded
  load read_file decode file = loaded decode file (read_file file)
