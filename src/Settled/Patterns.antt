-- ===== src/Settled/Patterns.antt =====
-- The groups of the path matchers that internal/resolver/matcher.go makes of a pattern.
use consent_owner_resolver.Prelude.{
  ℕ, suc, ◌+◌, ◌<◌, ◌≡◌, ◌⊎◌, inl, inr, refl, Bool, true, false, Option, none, some, List, [], ◌∷◌,
  arith, Bytes, str, ◌==◌, length, Bool-cases, if◌then◌else◌, ok, ok-injective, some-injective,
}
use mathlib.Core.Path.{subst}
use consent_owner_resolver.Go.Library.{Library, Regexp, Attempt, done, failed}
use consent_owner_resolver.RawConfig.{RawMatcher}
use consent_owner_resolver.Matcher.PathMatcher.{
  PathMatcher, last_group, with_groups, compiled, new_path_matcher,
}
use consent_owner_resolver.Settled.Leaves.{IsRegexp, IsCovered}

last_group-bound :
    (wanted : Bytes) (i : ℕ) (names : List Bytes) (found : Option ℕ) (g : ℕ)
    → last_group wanted i names found ≡ some g
    → (found ≡ some g) ⊎ (g < i + length names)
unfolding last_group
last_group-bound wanted i [] found g h = inl h
last_group-bound wanted i (name ∷ names) found g h =
    elim (last_group-bound wanted (suc i) names _ g h) [
      | inl earlier ↦ at_head (name == wanted) earlier
      | inr below ↦ inr (omega (arith, below))
    ]
  where
    at_head :
        (b : Bool)
        → (if b then some i else found) ≡ some g
        → (found ≡ some g) ⊎ (g < i + length (name ∷ names))
    at_head true e = inr (omega (arith, some-injective e))
    at_head false e = inl e

-- What `regexp.Compile` gives is a regular expression.
module _ (lib : Library)
    (regexps : (p : Bytes) (re : Regexp) → lib.compile p ≡ done re → IsRegexp re) where
  with_groups-IsCovered :
      (m : RawMatcher) (re : Regexp) (owner resource : Option ℕ) (p : PathMatcher)
      → IsRegexp re
      → ((g : ℕ) → owner ≡ some g → g < length re.subexp_names)
      → ((g : ℕ) → resource ≡ some g → g < length re.subexp_names)
      → with_groups m re owner resource ≡ ok p
      → IsCovered p
  unfolding with_groups
  with_groups-IsCovered m re none resource p h o r e = cc
  with_groups-IsCovered m re (some g) resource p h o r e =
      subst IsCovered (ok-injective e) (record { regexp = h; owner = o g refl; resource = r })

  group_bound :
      (wanted : Bytes) (names : List Bytes) (g : ℕ)
      → last_group wanted 0 names none ≡ some g
      → g < length names
  group_bound wanted names g h = elim (last_group-bound wanted 0 names none g h) [
    | inl e ↦ cc e
    | inr below ↦ omega (arith, below)
  ]

  compiled-IsCovered :
      (m : RawMatcher) (a : Attempt Regexp) (p : PathMatcher)
      → ((re : Regexp) → a ≡ done re → IsRegexp re)
      → compiled m a ≡ ok p
      → IsCovered p
  unfolding compiled
  compiled-IsCovered m (failed why) p h e = cc
  compiled-IsCovered m (done re) p h e =
      with_groups-IsCovered m re _ _ p (h re refl) (group_bound (str "owner") re.subexp_names)
        (group_bound (str "resource") re.subexp_names) e

  pub new_path_matcher-IsCovered :
      (m : RawMatcher) (p : PathMatcher) → new_path_matcher lib m ≡ ok p → IsCovered p
  unfolding new_path_matcher
  new_path_matcher-IsCovered m p h = elim (Bool-cases (m.pattern == [])) [
    | inl unset ↦ cc (rw unset at h)
    | inr set ↦ compiled-IsCovered m (lib.compile m.pattern) p (regexps m.pattern) (rw set at h)
  ]
