-- ===== src/Matcher/PathMatcher.antt =====
-- internal/resolver/matcher.go: the path matcher. A group that the pattern lacks is `none`.
use consent_owner_resolver.Prelude.{
  ℕ, suc, Option, none, some, List, [], ◌∷◌, ◌++◌, Bytes, str, ◌==◌, get_elem?, if◌then◌else◌,
  error, Result, ok, err, panicked, ◌>>=◌,
}
use consent_owner_resolver.Go.Library.{Library, Regexp, Attempt, done, failed}
use consent_owner_resolver.Types.{Slice, Claim, ResolveRequest, selector_whole}
use consent_owner_resolver.RawConfig.{RawMatcher}

pub record PathMatcher : Type 0 where
  pub re : Regexp
  pub owner_group : ℕ
  pub res_group : Option ℕ
  pub resource : Bytes
  pub participant : Bytes

-- The loop over `SubexpNames()`: the index of the last group of a name, from index `i` on.
unfoldable pub last_group : Bytes → ℕ → List Bytes → Option ℕ → Option ℕ
last_group wanted i [] found = found
last_group wanted i (name ∷ names) found =
    last_group wanted (suc i) names (if name == wanted then some i else found)

abbrev pub class_path : Bytes
class_path = str "path matcher"

unfoldable pub with_groups : RawMatcher → Regexp → Option ℕ → Option ℕ → Result PathMatcher
with_groups m re none res_group =
    err (error (class_path ++ str ": pattern must contain a named group (?P<owner>...)"))
with_groups m re (some owner_group) res_group = ok (record {
  re = re;
  owner_group = owner_group;
  res_group = res_group;
  resource = m.resource;
  participant = m.participant;
})

unfoldable pub compiled : RawMatcher → Attempt Regexp → Result PathMatcher
unfolding with_groups
compiled m (failed why) = err (error (class_path ++ str ": invalid pattern: " ++ why))
compiled m (done re) =
    with_groups m re (last_group (str "owner") 0 re.subexp_names none)
      (last_group (str "resource") 0 re.subexp_names none)

unfoldable pub new_path_matcher : Library → RawMatcher → Result PathMatcher
unfolding compiled
new_path_matcher lib m =
    if m.pattern == []
    then err (error (class_path ++ str ": 'pattern' is required"))
    else compiled m (lib.compile m.pattern)

-- `sub[i]`, which panics out of range.
unfoldable pub index : List Bytes → ℕ → Result Bytes
index sub i = elim (get_elem? sub i) [ none ↦ panicked | some s ↦ ok s ]

-- The claim's resource: the group, if there is one and it is not empty.
unfoldable pub resource_of : PathMatcher → List Bytes → Option ℕ → Result Bytes
unfolding index
resource_of m sub none = ok m.resource
resource_of m sub (some g) = do r ← index sub g; ok (if r == [] then m.resource else r)

module _ (lib : Library) (m : PathMatcher) where
  unfoldable pub owned : Bytes → List Bytes → Bytes → Result (Slice Claim)
  unfolding resource_of
  owned path sub owner =
      if owner == []
      then err (error (class_path ++ str ": empty owner extracted from " ++ lib.quote path))
      else do
        resource ← resource_of m sub m.res_group
        ok (
            some (
              record {
                selector = record { type = selector_whole; value = [] };
                owner_id = owner;
                participant = m.participant;
                data_resource = resource;
              }
              ∷ []))

  unfoldable pub extracted : Bytes → Option (List Bytes) → Result (Slice Claim)
  unfolding owned index
  extracted path none = err (
      error (
        class_path
        ++ str ": path "
        ++ lib.quote path
        ++ str " did not match the extraction pattern"))
  extracted path (some sub) = do owner ← index sub m.owner_group; owned path sub owner

  -- `Claims` of the path matcher.
  unfoldable pub path_claims : ResolveRequest → Result (Slice Claim)
  unfolding extracted
  path_claims req = extracted req.resource.path (m.re.find_string_submatch req.resource.path)
