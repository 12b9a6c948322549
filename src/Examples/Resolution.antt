-- ===== src/Examples/Resolution.antt =====
-- A configuration that is compiled, and the requests that its rules answer.
use consent_owner_resolver.Prelude.{
  ℕ, Bool, true, false, none, some, [], ◌∷◌, ◌≡◌, ◌⊎◌, refl, str, ◌==◌, has_prefix, All, Result, ok,
  err, Error, Bytes, length, some-injective, sym, ap,
}
use mathlib.Core.Path.{subst}
use consent_owner_resolver.Go.Library.{Library, Regexp, done}
use consent_owner_resolver.Settled.Leaves.{IsRegexp}
use consent_owner_resolver.Settled.Rules.{resolve_no_panic}
use consent_owner_resolver.Types.{ResolveRequest, ResolveResult}
use consent_owner_resolver.Cache.{Facade}
use consent_owner_resolver.Matcher.{path, json, static}
use consent_owner_resolver.Rules.{CompiledRule, ConfigResolver, matches, is_catch_all}
use consent_owner_resolver.Resolve.{resolve, resolve_from, apply_rule}
use consent_owner_resolver.Payload.{new_lazy_payload}
use consent_owner_resolver.Resolve.Laws.{IsFirstMatch, Skips, Answer, resolve-Answer}
use consent_owner_resolver.Resolve.Safety.{ReadsEmpty, resolve_no_claims}
use consent_owner_resolver.Resolve.Independence.{SameOwners, resolve-SameOwners}
use consent_owner_resolver.Config.{
  compile_config, validate_scheme, contract_service, compile_rules, compile_rule,
  check_contract_rule, build_matcher, reject_dead_rules,
}
use consent_owner_resolver.Matcher.PathMatcher.{new_path_matcher, last_group, path_claims}
use consent_owner_resolver.Matcher.JsonMatcher.{
  new_json_matcher, json_claims, json_claim_for_item, required,
}
use consent_owner_resolver.Matcher.StaticMatcher.{new_static_matcher, static_claims}
use consent_owner_resolver.Matcher.{claims}
use consent_owner_resolver.Go.Strconv.{itoa, atoi}
use consent_owner_resolver.Go.Strings.{split, replace_all}
use consent_owner_resolver.Items.{claims_per_item, claims_from}
use consent_owner_resolver.Json.{lookup}
use consent_owner_resolver.Pointer.{
  get_json_pointer, walk, step, unescape, escape, join_pointer, pointer_string,
}
use consent_owner_resolver.Payload
use consent_owner_resolver.Payload.{decode_json_body}
use consent_owner_resolver.Config.Laws.{IsSound, compile_config-IsSound}
use consent_owner_resolver.Guarantees.{IsUsable, resolve-IsUsable}
use consent_owner_resolver.Examples.{
  go, user_path, raw_config, no_matcher, ask, json_body, acme, two_claims, no_claims, network,
  selector_whole,
}

unfoldable pub runs : Unit {0}
unfolding str ◌==◌ has_prefix itoa validate_scheme contract_service compile_rules compile_rule
    check_contract_rule build_matcher new_path_matcher last_group new_json_matcher
    new_static_matcher reject_dead_rules is_catch_all compile_config resolve resolve_from apply_rule
    matches claims path_claims json_claims static_claims claims_per_item claims_from Payload.json
    json_claim_for_item required get_json_pointer split walk step atoi unescape replace_all lookup
    pointer_string join_pointer escape decode_json_body new_lazy_payload
runs = tt

abbrev State : Type 0
State = Facade ℕ

abbrev pub quiet : State
quiet = record { world = 0; items = [] }

abbrev users : CompiledRule State
users = record {
  name = str "users";
  service = [];
  path_re = some user_path;
  consent_required = true;
  scheme = str "identifier";
  matcher = path (record {
    re = user_path;
    owner_group = 1;
    res_group = none;
    resource = [];
    participant = [];
  });
}

abbrev docs : CompiledRule State
docs = record {
  name = str "docs";
  service = str "docs";
  path_re = none;
  consent_required = true;
  scheme = str "email";
  matcher = json (record {
    items = str "/docs";
    items_is_array = true;
    owner_ptr = str "/owner";
    resource_ptr = [];
    resource = [];
    participant = [];
  });
}

abbrev others : CompiledRule State
others = record {
  name = str "#2";
  service = [];
  path_re = none;
  consent_required = false;
  scheme = str "identifier";
  matcher = static (record { owner = str "org"; resource = []; participant = [] });
}

abbrev pub resolver : ConfigResolver State
resolver = record {
  default_consent_required = true;
  default_scheme = str "identifier";
  rules = users ∷ docs ∷ others ∷ [];
}

pub compiled : compile_config go network raw_config ≡ ok resolver
unfolding runs
compiled = refl

-- A catch-all in front of another rule is refused, and so is an unknown scheme.
abbrev misplaced : Result (ConfigResolver State)
misplaced = compile_config go network (record raw_config {
  rules =
      record {
        name = str "all";
        match = record { service = []; path_pattern = [] };
        consent_required = true;
        matcher = record no_matcher { type = str "static"; owner = str "org" };
      }
      ∷ raw_config.rules;
})

abbrev is_err : {A : Type 0} → Result A → Bool
is_err (err e) = true
is_err _ = false

refused :
    (is_err misplaced ≡ true)
    × (is_err (compile_config go network (record raw_config { default_scheme = str "phone" }))
        ≡ true)
unfolding runs
refused = (refl, refl)

-- Regular expressions that match everything.
abbrev lax : Library
lax = record go { compile = λ p. done (record user_path { match_string = λ s. true }) }

-- A rule with such a pattern stands in front of others, and compiles.
shadowing :
    is_err (
      compile_config lax network (record raw_config {
        rules =
            record {
              name = str "all";
              match = record { service = []; path_pattern = str ".*" };
              consent_required = true;
              matcher = record no_matcher { type = str "static"; owner = str "org" };
            }
            ∷ raw_config.rules;
      }))
    ≡ false
unfolding runs
shadowing = refl

abbrev get_docs : ResolveRequest
get_docs = ask (str "docs") (str "/docs") (json_body (str "two"))

answered : (resolve go resolver get_docs quiet).0 ≡ ok two_claims
unfolding runs
answered = refl

answered_empty :
    (resolve go resolver (ask (str "docs") (str "/docs") (json_body (str "empty"))) quiet).0
    ≡ ok no_claims
unfolding runs
answered_empty = refl

-- A rule that asks for no consent gives the claims of its matcher all the same.
unneeded :
    (resolve go resolver (ask (str "other") (str "/other") none) quiet).0
    ≡ ok (record {
      consent_required = false;
      scheme = str "identifier";
      claims = some (
          record {
            selector = record { type = selector_whole; value = [] };
            owner_id = str "org";
            participant = [];
            data_resource = [];
          }
          ∷ []);
    })
unfolding runs
unneeded = refl

-- A body that the rule's matcher cannot read is an error, never an answer without claims.
unreadable :
    is_err (resolve go resolver (ask (str "docs") (str "/docs") (json_body (str "{"))) quiet).0
    ≡ true
unfolding runs
unreadable = refl

first_docs : IsFirstMatch go get_docs resolver.rules docs
unfolding runs
first_docs = record {
  before = users ∷ [];
  after = others ∷ [];
  listed = refl;
  skipped = (refl, tt);
  matched = refl;
}

abbrev get_user : ResolveRequest
get_user = ask (str "users") (str "/users/eve") none

first_users : IsFirstMatch go get_user resolver.rules users
unfolding runs
first_users = record {
  before = [];
  after = docs ∷ others ∷ [];
  listed = refl;
  skipped = tt;
  matched = refl;
}

resolve-SameOwners_example : SameOwners two_claims two_claims
unfolding runs
resolve-SameOwners_example =
    resolve-SameOwners go resolver get_docs acme quiet quiet two_claims two_claims refl refl

resolve-Answer_example : Answer go resolver get_docs quiet resolver.rules two_claims
resolve-Answer_example = resolve-Answer go resolver get_docs quiet two_claims answered

resolve-IsUsable_example : IsUsable two_claims
resolve-IsUsable_example =
    resolve-IsUsable go network raw_config resolver get_docs quiet two_claims compiled answered

user_path-IsRegexp : IsRegexp user_path
user_path-IsRegexp p sub h = sym (ap length (some-injective h))

done-injective : {A : Type 0} {a b : A} → done a ≡ done b → a ≡ b
done-injective h = cc

pub go-IsRegexp : (p : Bytes) (re : Regexp) → go.compile p ≡ done re → IsRegexp re
go-IsRegexp p re h = subst IsRegexp (done-injective h) user_path-IsRegexp

resolve_no_panic_example :
    ((out : ResolveResult) × ((resolve go resolver get_docs quiet).0 ≡ ok out))
    ⊎ ((e : Error) × ((resolve go resolver get_docs quiet).0 ≡ err e))
resolve_no_panic_example =
    resolve_no_panic go network raw_config resolver get_docs quiet go-IsRegexp compiled

compile_config-IsSound_example : IsSound resolver
compile_config-IsSound_example = compile_config-IsSound go network raw_config resolver compiled

resolve_no_claims_example :
    All (Skips go (ask (str "docs") (str "/docs") (json_body (str "empty")))) resolver.rules
    ⊎ ((rule : CompiledRule State) × IsFirstMatch go
          (ask (str "docs") (str "/docs") (json_body (str "empty")))
          resolver.rules
          rule
        × ReadsEmpty go rule.matcher (json_body (str "empty")))
resolve_no_claims_example =
    resolve_no_claims go resolver (ask (str "docs") (str "/docs") (json_body (str "empty"))) quiet
      no_claims answered_empty refl
