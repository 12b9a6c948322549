-- ===== src/Matcher/Owners.antt =====
-- The owner of one claim, for each matcher of internal/resolver.
use consent_owner_resolver.Prelude.{
  ℕ, Bool, true, false, Option, none, some, List, [], ◌∷◌, ◌++◌, ◌≡◌, ◌≢◌, ◌⊎◌, inl, inr, refl, sym,
  ap, arith, Bytes, str, ◌==◌, eq_iff, if◌then◌else◌, get_elem?, All, Bool-cases, Option-cases,
  Error, Result, ok, err, panicked, ok-injective, some-injective,
}
use consent_owner_resolver.Prelude
use mathlib.Core.Path.{subst}
use consent_owner_resolver.Prelude.Exec.{lift, >>=-eq-ok}
use consent_owner_resolver.Json.{Json}
use consent_owner_resolver.Go.Library.{Library}
use consent_owner_resolver.Pointer.{pointer_string}
use consent_owner_resolver.Types.{
  Slice, Claim, ResolveRequest, selector_whole, selector_json_pointer,
}
use consent_owner_resolver.Contract.{Contract}
use consent_owner_resolver.Governing.{find_contract_for_target}
use consent_owner_resolver.Governing.Laws.{IsFirst, find_contract_for_target-Governs}
use consent_owner_resolver.Matcher.PathMatcher.{
  PathMatcher, index, resource_of, owned, extracted, path_claims,
}
use consent_owner_resolver.Matcher.JsonMatcher.{
  JsonMatcher, required, item_resource, json_claim_for_item,
}
use consent_owner_resolver.Matcher.ContractMatcher.{
  ContractMatcher, Memo, governing_or, claim_of, wrap_errors, pii, contract_claim_for_item,
}

required_lem :
    (e : Error) (o : Option Bytes) (s : Bytes) → required e o ≡ ok s → (o ≡ some s) × (s ≢ [])
unfolding required
required_lem e none s h = cc
required_lem e (some t) s h = ground (arith, eq_iff t [])

governing_or_lem :
    (e : Error) (o : Option Contract) (c : Contract) → governing_or e o ≡ ok c → o ≡ some c
unfolding governing_or
governing_or_lem e none c h = cc
governing_or_lem e (some d) c h = cc

-- The claim stands at the selector of its item, and its owner is the text in the item at the
-- matcher's owner pointer, which is not empty.
pub record OwnerAt (owner_ptr : Bytes) (item : Json) (selector : Bytes) (c : Claim) : Type 0 where
  pub kind : c.selector.type ≡ selector_json_pointer
  pub place : c.selector.value ≡ selector
  pub owner : pointer_string item owner_ptr ≡ some c.owner_id
  pub present : c.owner_id ≢ []

pub json_claim_for_item-OwnerAt :
    (lib : Library) (m : JsonMatcher) (item : Json) (selector : Bytes) (c : Claim)
    → json_claim_for_item lib m item selector ≡ ok c
    → OwnerAt m.owner_ptr item selector c
unfolding json_claim_for_item
json_claim_for_item-OwnerAt lib m item selector c h =
    let (owner, read, h') = Prelude.>>=-eq-ok (required _ (pointer_string item m.owner_ptr)) _ h in
    let (resource, named, same) = Prelude.>>=-eq-ok (item_resource lib m item) _ h' in
    let (found, present) = required_lem _ _ owner read in
    subst (OwnerAt m.owner_ptr item selector) (ok-injective same)
      (record { kind = refl; place = refl; owner = found; present = present })

-- The contract behind a claim: the first of the list that governs the object that the item names.
pub record GovernedBy (contracts : List Contract) (uri_ptr : Bytes) (item : Json) : Type 0 where
  pub uri : Bytes
  pub named : pointer_string item uri_ptr ≡ some uri
  pub governing : Contract
  pub is_first : IsFirst uri contracts governing

module _ (lib : Library) {S : Type 0} (m : ContractMatcher S) (contracts : List Contract) where
  pub contract_claim_for_item-OwnerAt :
      (item : Json) (selector : Bytes) (s : Memo S) (c : Claim)
      → (contract_claim_for_item lib m contracts item selector s).0 ≡ ok c
      → OwnerAt m.owner_ptr item selector c × GovernedBy contracts m.uri_ptr item
  unfolding contract_claim_for_item claim_of
  contract_claim_for_item-OwnerAt item selector s c h =
      let (owner, read, h₁) =
        >>=-eq-ok (lift (required _ (pointer_string item m.owner_ptr))) _ s h in
      let (uri, read_uri, h₂) =
        >>=-eq-ok (lift (required _ (pointer_string item m.uri_ptr))) _ s h₁ in
      let (governing, chosen, h₃) =
        >>=-eq-ok (lift (governing_or _ (find_contract_for_target contracts uri))) _ s h₂ in
      let (resource, fetched, same) = >>=-eq-ok (wrap_errors _ (pii m.client governing)) _ s h₃ in
      let (found, present) = required_lem _ _ owner read in
      let (named, not_empty) = required_lem _ _ uri read_uri in
      (
        subst (OwnerAt m.owner_ptr item selector) (ok-injective same)
            (record { kind = refl; place = refl; owner = found; present = present }),
        record {
          uri = uri;
          named = named;
          governing = governing;
          is_first =
              find_contract_for_target-Governs uri contracts governing
                (governing_or_lem _ _ governing chosen);
        },
      )

-- The one claim of a path matcher: its owner is the owner group of the path, and is not empty.
pub record PathOwner (m : PathMatcher) (p : Bytes) (out : Slice Claim) : Type 0 where
  pub claim : Claim
  pub alone : out ≡ some (claim ∷ [])
  pub whole : claim.selector.type ≡ selector_whole
  pub groups : List Bytes
  pub matched : m.re.find_string_submatch p ≡ some groups
  pub owner : get_elem? groups m.owner_group ≡ some claim.owner_id
  pub present : claim.owner_id ≢ []

index_lem : (sub : List Bytes) (i : ℕ) (s : Bytes) → index sub i ≡ ok s → get_elem? sub i ≡ some s
unfolding index
index_lem sub i s h = ground arith

owned-PathOwner :
    (lib : Library) (m : PathMatcher) (p : Bytes) (sub : List Bytes) (owner : Bytes)
    (out : Slice Claim)
    → m.re.find_string_submatch p ≡ some sub
    → get_elem? sub m.owner_group ≡ some owner
    → owned lib m p sub owner ≡ ok out
    → PathOwner m p out
unfolding owned ◌==◌
owned-PathOwner lib m p sub [] out matched found h = cc
owned-PathOwner lib m p sub (b ∷ owner) out matched found h =
    let (resource, named, same) = Prelude.>>=-eq-ok (resource_of m sub m.res_group) _ h in
    subst (PathOwner m p) (ok-injective same) (record {
      claim = record {
        selector = record { type = selector_whole; value = [] };
        owner_id = b ∷ owner;
        participant = m.participant;
        data_resource = resource;
      };
      alone = refl;
      whole = refl;
      groups = sub;
      matched = matched;
      owner = found;
      present = cc;
    })

extracted-PathOwner :
    (lib : Library) (m : PathMatcher) (p : Bytes) (o : Option (List Bytes)) (out : Slice Claim)
    → m.re.find_string_submatch p ≡ o
    → extracted lib m p o ≡ ok out
    → PathOwner m p out
unfolding extracted
extracted-PathOwner lib m p none out matched h = cc
extracted-PathOwner lib m p (some sub) out matched h =
    let (owner, found, h') = Prelude.>>=-eq-ok (index sub m.owner_group) _ h in
    owned-PathOwner lib m p sub owner out matched (index_lem sub m.owner_group owner found) h'

-- A path matcher that answers gives exactly one claim, on the owner that its pattern extracts.
pub path_claims-PathOwner :
    (lib : Library) (m : PathMatcher) (req : ResolveRequest) (out : Slice Claim)
    → path_claims lib m req ≡ ok out
    → PathOwner m req.resource.path out
unfolding path_claims
path_claims-PathOwner lib m req out h = extracted-PathOwner lib m req.resource.path _ out refl h
