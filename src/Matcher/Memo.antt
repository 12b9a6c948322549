-- ===== src/Matcher/Memo.antt =====
-- Laws of perRequestResources in internal/resolver/contract_matcher.go.
use consent_owner_resolver.Prelude.{
  some, [], ◌≡◌, ◌≢◌, inl, inr, sym, ap, ◌∙◌, arith, eq_iff, eq_refl, Option-cases, Result, ok, err,
  panicked, ok-injective,
}
use consent_owner_resolver.Prelude.Dict.{Dict, get, get-put}
use consent_owner_resolver.Types.{Slice}
use consent_owner_resolver.Contract.{Contract, DataResource}
use consent_owner_resolver.Governing.{first_pii_resource}
use consent_owner_resolver.Lookup.{ContractLookup}
use consent_owner_resolver.Matcher.ContractMatcher.{
  PiiResource, Memo, keep, fetched, remembered, pii, pii_of, to_list,
}

module _ {S : Type 0} (client : ContractLookup S) where
  remembered-some :
      (c : Contract) (by_id : Dict PiiResource) (r : PiiResource)
      → c.id ≢ []
      → get by_id c.id ≡ some r
      → remembered client c by_id ≡ some r
  unfolding remembered
  remembered-some c by_id r named there = ground (arith, eq_iff c.id [])

  pii_hit :
      (c : Contract) (memo : Memo S) (r : PiiResource)
      → remembered client c memo.by_id ≡ some r
      → pii client c memo ≡ (ok r, memo)
  unfolding pii
  pii_hit c memo r h = rw (h, pii)

  kept_here :
      (c : Contract) (result : PiiResource) (by_id : Dict PiiResource)
      → c.id ≢ []
      → get (keep client c.id result by_id) c.id ≡ some result
  unfolding keep
  kept_here c result by_id named =
      ground (arith, eq_iff c.id [], eq_refl c.id, get-put by_id c.id c.id result)

  of_remembered :
      (c : Contract) (by_id : Dict PiiResource) (r : PiiResource)
      → remembered client c by_id ≡ some r
      → get by_id c.id ≡ some r
  unfolding remembered
  of_remembered c by_id r h = ground arith

  fetched_kept :
      (c : Contract) (by_id : Dict PiiResource) (x : Result (Slice DataResource) × S)
      (r : PiiResource)
      → c.id ≢ []
      → (fetched client c by_id x).0 ≡ ok r
      → get (fetched client c by_id x).1.by_id c.id ≡ some r
  unfolding fetched keep
  fetched_kept c by_id (ok resources, s) r named h =
      kept_here c (pii_of (first_pii_resource (to_list resources))) by_id named
      ∙ ap some (ok-injective h)
  fetched_kept c by_id (err e, s) r named h = cc
  fetched_kept c by_id (panicked, s) r named h = cc

  pii_kept :
      (c : Contract) (memo : Memo S) (r : PiiResource)
      → c.id ≢ []
      → (pii client c memo).0 ≡ ok r
      → get (pii client c memo).1.by_id c.id ≡ some r
  unfolding pii
  pii_kept c memo r named h = elim (Option-cases (remembered client c memo.by_id)) [
    | inl new ↦
        rw (new, pii)
          (fetched_kept c memo.by_id (client.data_resources c memo.facade) r named
            (rw (new, pii) at h))
    | inr (cached, hit) ↦
        ap (λ x. get x.1.by_id c.id) (pii_hit c memo cached hit)
        ∙ of_remembered c memo.by_id cached hit
        ∙ ap some (ok-injective (sym (ap (λ x. x.0) (pii_hit c memo cached hit)) ∙ h))
  ]

  -- Once a contract with an id has been resolved without an error, a contract of the same id is
  -- answered alike, and nothing is fetched or changed.
  pub pii-pii :
      (c again : Contract) (memo : Memo S) (r : PiiResource)
      → c.id ≢ []
      → again.id ≡ c.id
      → (pii client c memo).0 ≡ ok r
      → pii client again (pii client c memo).1 ≡ (ok r, (pii client c memo).1)
  pii-pii c again memo r named same h = pii_hit again (pii client c memo).1 r (
      remembered-some again (pii client c memo).1.by_id r (λ e. named (sym same ∙ e))
        (ap (get (pii client c memo).1.by_id) same ∙ pii_kept c memo r named h))
