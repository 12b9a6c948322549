-- ===== src/Matcher/StaticMatcher.antt =====
-- internal/resolver/matcher.go: the static matcher.
use consent_owner_resolver.Prelude.{
  some, [], ◌∷◌, ◌++◌, Bytes, str, ◌==◌, if◌then◌else◌, error, Result, ok, err,
}
use consent_owner_resolver.Types.{Slice, Claim, selector_whole}
use consent_owner_resolver.RawConfig.{RawMatcher}

pub record StaticMatcher : Type 0 where
  pub owner : Bytes
  pub resource : Bytes
  pub participant : Bytes

abbrev pub class_static : Bytes
class_static = str "static matcher"

unfoldable pub new_static_matcher : RawMatcher → Result StaticMatcher
new_static_matcher m =
    if m.owner == []
    then err (
        error (
          class_static
          ++ str ": 'owner' is required (a static rule with no owner can never produce a claim)"))
    else ok (record { owner = m.owner; resource = m.resource; participant = m.participant })

-- `Claims` of the static matcher.
unfoldable pub static_claims : StaticMatcher → Result (Slice Claim)
static_claims m = ok (
    some (
      record {
        selector = record { type = selector_whole; value = [] };
        owner_id = m.owner;
        participant = m.participant;
        data_resource = m.resource;
      }
      ∷ []))
