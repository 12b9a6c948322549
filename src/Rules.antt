-- ===== src/Rules.antt =====
-- internal/resolver/config.go: compiled rules, and which requests they match.
use consent_owner_resolver.Prelude.{
  Bool, true, false, not, ◌&&◌, Option, none, some, List, [], Bytes, ◌==◌, if◌then◌else◌,
}
use consent_owner_resolver.Go.Library.{Regexp}
use consent_owner_resolver.Types.{ResolveRequest}
use consent_owner_resolver.Matcher.{Matcher}

pub record CompiledRule (S : Type 0) : Type 0 where
  pub name : Bytes
  pub service : Bytes
  pub path_re : Option Regexp
  pub consent_required : Bool
  pub scheme : Bytes
  pub matcher : Matcher S

pub record ConfigResolver (S : Type 0) : Type 0 where
  pub default_consent_required : Bool
  pub default_scheme : Bytes
  pub rules : List (CompiledRule S)

unfoldable pub is_nil : Option Regexp → Bool
is_nil none = true
is_nil (some re) = false

unfoldable pub path_matches : Option Regexp → Bytes → Bool
path_matches none p = true
path_matches (some re) p = re.match_string p

module _ {S : Type 0} where
  unfoldable pub is_catch_all : CompiledRule S → Bool
  unfolding is_nil
  is_catch_all r = r.service == [] && is_nil r.path_re

  unfoldable pub matches : CompiledRule S → ResolveRequest → Bool
  unfolding path_matches
  matches r req =
      if not (r.service == []) && not (r.service == req.resource.service)
      then false
      else path_matches r.path_re req.resource.path
