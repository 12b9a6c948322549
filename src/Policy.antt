-- ===== src/Policy.antt =====
-- What a configuration of internal/resolver/config.go says about a request, read off the text of the
-- configuration itself: no rule is compiled, and no matcher is asked.
pub mod Followed
pub mod Concurrent
use consent_owner_resolver.Prelude.{
  Bool, true, false, ◌&&◌, ◌||◌, List, [], ◌∷◌, Bytes, ◌==◌, if◌then◌else◌,
}
use consent_owner_resolver.Go.Library.{Library, Regexp, Attempt, done, failed}
use consent_owner_resolver.Types.{ResolveRequest}
use consent_owner_resolver.RawConfig.{RawRule, RawConfig}
use consent_owner_resolver.Config.{fallback_scheme}

-- Whether consent is asked for, and how owners are identified.
pub record Policy : Type 0 where
  pub consent_required : Bool
  pub scheme : Bytes

abbrev pub first_of : Bytes → Bytes → Bytes
first_of given fallback = if given == [] then fallback else given

abbrev pub found_by : Attempt Regexp → Bytes → Bool
found_by (done re) path = re.match_string path
found_by (failed why) path = false

abbrev pub scheme_of : RawConfig → Bytes
scheme_of raw = first_of raw.default_scheme fallback_scheme

module _ (lib : Library) where
  unfoldable pub is_meant : RawRule → ResolveRequest → Bool
  is_meant rr req =
      (rr.match.service == [] || rr.match.service == req.resource.service)
      && (rr.match.path_pattern == []
          || found_by (lib.compile rr.match.path_pattern) req.resource.path)

  unfoldable pub policy_from : RawConfig → List RawRule → ResolveRequest → Policy
  unfolding is_meant
  policy_from raw [] req = record {
    consent_required = raw.default_consent_required;
    scheme = scheme_of raw;
  }
  policy_from raw (rr ∷ rrs) req =
      let later = policy_from raw rrs req in
      if is_meant rr req
      then record {
        consent_required = rr.consent_required;
        scheme = first_of rr.matcher.scheme (scheme_of raw);
      }
      else later

  unfoldable pub policy : RawConfig → ResolveRequest → Policy
  unfolding policy_from
  policy raw req = policy_from raw raw.rules req
