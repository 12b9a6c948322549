-- ===== src/Guarantees.antt =====
-- Parse and Resolve of internal/resolver/config.go together.
use consent_owner_resolver.Prelude.{
  some, List, [], ◌≡◌, ◌≢◌, inl, inr, refl, sym, ◌∙◌, All, All-at, ok, some-injective,
}
use mathlib.Core.Path.{subst}
use consent_owner_resolver.Go.Library.{Library}
use consent_owner_resolver.Types.{Claim, ResolveRequest, ResolveResult}
use consent_owner_resolver.RawConfig.{RawConfig}
use consent_owner_resolver.Contract.Client.{Network}
use consent_owner_resolver.Cache.{Facade}
use consent_owner_resolver.Items.Origin.{Origin-All}
use consent_owner_resolver.Matcher.{Matcher, path, json, static, contract}
use consent_owner_resolver.Matcher.ContractMatcher.{to_list}
use consent_owner_resolver.Matcher.Owners.{OwnerAt, GovernedBy}
use consent_owner_resolver.Matcher.Justified.{Justified}
use consent_owner_resolver.Rules.{ConfigResolver}
use consent_owner_resolver.Resolve.{resolve, default_result}
use consent_owner_resolver.Resolve.Laws.{resolve-Answer}
use consent_owner_resolver.Config.{compile_config}
use consent_owner_resolver.Config.Laws.{
  IsScheme, HasOwner, IsSoundRule, IsSound, compile_config-IsSound,
}

-- An answer that the plugin can use: a known scheme, a list of claims that is not nil, and an owner
-- in each claim.
pub record IsUsable (out : ResolveResult) : Type 0 where
  pub scheme : IsScheme out.scheme
  pub listed : List Claim
  pub claims : out.claims ≡ some listed
  pub owners : All (λ c. c.owner_id ≢ []) listed

module _ (lib : Library) {S : Type 0} where
  owners_of :
      (m : Matcher S) (req : ResolveRequest) (s : S) (cs : List Claim)
      → HasOwner m
      → Justified lib m req s (some cs)
      → All (λ c. c.owner_id ≢ []) cs
  owners_of (path m) req s cs has h =
      subst (All (λ c. c.owner_id ≢ [])) (some-injective (sym h.alone)) (h.present, tt)
  owners_of (json m) req s cs has h =
      subst (All (λ c. c.owner_id ≢ [])) (some-injective (sym h.returned)) (
        Origin-All (OwnerAt m.owner_ptr) _ (λ item selector c at. at.present) h.decoded m.items
          m.items_is_array h.listed h.origin)
  owners_of (static m) req s cs has (c, alone, owner, resource) =
      subst (All (λ c. c.owner_id ≢ [])) (some-injective (sym alone)) (λ e. has (sym owner ∙ e), tt)
  owners_of (contract m) req s cs has h =
      let from = h.items in
      subst (All (λ c. c.owner_id ≢ [])) (some-injective (sym from.returned)) (
        Origin-All
          (λ item selector c.
            OwnerAt m.owner_ptr item selector c × GovernedBy (to_list h.contracts) m.uri_ptr item)
          _ (λ item selector c at. at.0.present) from.decoded m.items m.items_is_array from.listed
          from.origin)

  -- A sound resolver's answers are usable.
  IsSound-IsUsable :
      (r : ConfigResolver S) (req : ResolveRequest) (s : S) (out : ResolveResult)
      → IsSound r
      → (resolve lib r req s).0 ≡ ok out
      → IsUsable out
  unfolding default_result
  IsSound-IsUsable r req s out sound h = elim (resolve-Answer lib r req s out h) [
    | inl (rule, first, answered) ↦
        let fine =
          All-at IsSoundRule first.before rule first.after
            (subst (All IsSoundRule) first.listed sound.rules) in
        record {
          scheme = subst IsScheme (sym answered.scheme) fine.scheme;
          listed = answered.listed;
          claims = answered.claims;
          owners = owners_of rule.matcher req s answered.listed fine.owner answered.justified;
        }
    | inr (skipped, same) ↦
        subst IsUsable (sym same)
          (record { scheme = sound.default_scheme; listed = []; claims = refl; owners = tt })
  ]

-- Every answer of a resolver that is compiled from a configuration has a scheme of the closed set, a
-- list of claims that is not nil, and an owner that is not empty in each claim, whatever the request
-- and the state behind the contract lookup.
pub resolve-IsUsable :
    (lib : Library) {W : Type 0} (net : Network W) (raw : RawConfig) (r : ConfigResolver (Facade W))
    (req : ResolveRequest) (s : Facade W) (out : ResolveResult)
    → compile_config lib net raw ≡ ok r
    → (resolve lib r req s).0 ≡ ok out
    → IsUsable out
resolve-IsUsable lib net raw r req s out compiled h =
    IsSound-IsUsable lib r req s out (compile_config-IsSound lib net raw r compiled) h
