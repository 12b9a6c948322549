-- ===== src/Matcher/Justified.antt =====
-- What the claims of each matcher of internal/resolver rest on, from a fresh payload.
use consent_owner_resolver.Prelude.{
  Bool, false, Option, some, List, [], ◌∷◌, ◌≡◌, ◌≢◌, inl, inr, refl, sym, ◌∙◌, Bytes, ◌==◌, eq_iff,
  Bool-cases, Result, ok, err, panicked, ok-injective,
}
use consent_owner_resolver.Prelude.Exec.{lift, >>=-eq-ok}
use consent_owner_resolver.Json.{Json, null}
use consent_owner_resolver.Go.Library.{Library}
use consent_owner_resolver.Types.{Slice, Claim, ResolveRequest, Body, Parties}
use consent_owner_resolver.Payload
use consent_owner_resolver.Payload.{LazyPayload, new_lazy_payload, decode_json_body}
use consent_owner_resolver.Payload.Laws.{json-new}
use consent_owner_resolver.Contract.{Contract}
use consent_owner_resolver.Items.Laws.{claims_per_item-Origin}
use consent_owner_resolver.Items.Origin.{Origin}
use consent_owner_resolver.Matcher.{Matcher, path, json, static, contract, claims}
use consent_owner_resolver.Matcher.Frame.{Frame, on_payload, on_facade}
use consent_owner_resolver.Matcher.StaticMatcher.{static_claims}
use consent_owner_resolver.Matcher.JsonMatcher.{
  JsonMatcher, json_claims, items_of, json_claim_for_item,
}
use consent_owner_resolver.Matcher.ContractMatcher.{
  ContractMatcher, contract_claims, of_decoded, between, under_contracts, to_list, consumer_of,
  provider_of, contract_claim_for_item, on_memo, wrap_errors, wrapped,
}
use consent_owner_resolver.Matcher.Owners.{
  OwnerAt, GovernedBy, PathOwner, path_claims-PathOwner, json_claim_for_item-OwnerAt,
  contract_claim_for_item-OwnerAt,
}

-- The state in which a request meets its matcher.
abbrev pub fresh : {S : Type 0} → Option Body → S → Frame S
fresh b s = record { payload = new_lazy_payload b; facade = s }

module _ (lib : Library) where
  -- The claims come from the items of the decoded body.
  pub record FromItems (P : Json → Bytes → Claim → Type 0) (items : Bytes) (is_array : Bool)
      (b : Option Body) (out : Slice Claim) : Type 0 where
    pub decoded : Json
    pub body : decode_json_body lib b ≡ ok decoded
    pub listed : List Claim
    pub returned : out ≡ some listed
    pub origin : Origin P decoded items is_array listed

  module _ {S : Type 0} (m : JsonMatcher) where
    items_of-FromItems :
        (b : Option Body) (decoded : Json) (f : Frame S) (out : Slice Claim)
        → decode_json_body lib b ≡ ok decoded
        → (items_of lib m decoded f).0 ≡ ok out
        → FromItems (OwnerAt m.owner_ptr) m.items m.items_is_array b out
    unfolding items_of
    items_of-FromItems b null f out body h = cc
    items_of-FromItems b decoded f out body h =
        let (cs, returned, origin) =
          claims_per_item-Origin lib (OwnerAt m.owner_ptr)
            (λ item selector. lift (json_claim_for_item lib m item selector))
            (λ item selector s c. json_claim_for_item-OwnerAt lib m item selector c) decoded m.items
            m.items_is_array _ f out h in
        record { decoded = decoded; body = body; listed = cs; returned = returned; origin = origin }

    pub json_claims-FromItems :
        (b : Option Body) (s : S) (out : Slice Claim)
        → (json_claims lib m (fresh b s)).0 ≡ ok out
        → FromItems (OwnerAt m.owner_ptr) m.items m.items_is_array b out
    unfolding json_claims
    json_claims-FromItems b s out h =
        let (decoded, read, h') =
          >>=-eq-ok (on_payload (Payload.json lib)) (items_of lib m) (fresh b s) h in
        items_of-FromItems b decoded _ out (sym (json-new lib b) ∙ read) h'

  wrapped-eq-ok :
      {A : Type 0} (prefix : Bytes) (r : Result A) (a : A) → wrapped prefix r ≡ ok a → r ≡ ok a
  unfolding wrapped
  wrapped-eq-ok prefix (ok a') a h = h
  wrapped-eq-ok prefix (err e) a h = cc
  wrapped-eq-ok prefix panicked a h = cc

  module _ {S : Type 0} (m : ContractMatcher S) where
    -- The claims come from items whose objects are governed by one of the contracts that the lookup
    -- gives for the two sides of the exchange.
    pub record FromContracts (parties : Option Parties) (b : Option Body) (s : S)
        (out : Slice Claim) : Type 0 where
      pub contracts : Slice Contract
      pub consumer : consumer_of parties ≢ []
      pub provider : provider_of m.provider_sd parties ≢ []
      pub looked_up :
          (m.client.signed_contracts (provider_of m.provider_sd parties) (consumer_of parties) s).0
          ≡ ok contracts
      pub items :
          FromItems
            (λ item selector c.
              OwnerAt m.owner_ptr item selector c × GovernedBy (to_list contracts) m.uri_ptr item)
            m.items
            m.items_is_array
            b
            out

    under_contracts-FromItems :
        (p q : Bytes) (cs : List Contract) (b : Option Body) (decoded : Json) (f : Frame S)
        (out : Slice Claim)
        → decode_json_body lib b ≡ ok decoded
        → (under_contracts lib m p q cs decoded f).0 ≡ ok out
        → FromItems
            (λ item selector c. OwnerAt m.owner_ptr item selector c × GovernedBy cs m.uri_ptr item)
            m.items
            m.items_is_array
            b
            out
    unfolding under_contracts on_memo
    under_contracts-FromItems p q [] b decoded f out body h = cc
    under_contracts-FromItems p q (c ∷ cs) b decoded f out body h =
        let (claims, returned, origin) =
          claims_per_item-Origin lib _ (contract_claim_for_item lib m (c ∷ cs))
            (contract_claim_for_item-OwnerAt lib m (c ∷ cs)) decoded m.items m.items_is_array _ _
            out h in
        record {
          decoded = decoded;
          body = body;
          listed = claims;
          returned = returned;
          origin = origin;
        }

    ne_nil : (t : Bytes) → (t == []) ≡ false → t ≢ []
    ne_nil t h e = cc ((eq_iff t []).1 e)

    between-FromContracts :
        (parties : Option Parties) (b : Option Body) (decoded : Json) (f : Frame S)
        (out : Slice Claim)
        → decode_json_body lib b ≡ ok decoded
        → (between lib m (provider_of m.provider_sd parties) (consumer_of parties) decoded f).0
          ≡ ok out
        → FromContracts parties b f.facade out
    unfolding between wrap_errors
    between-FromContracts parties b decoded f out body h =
        elim (Bool-cases (consumer_of parties == [])) [
          | inl unnamed ↦ cc (rw (unnamed, between) at h)
          | inr consumer ↦ elim (Bool-cases (provider_of m.provider_sd parties == [])) [
            | inl unnamed ↦ cc (rw (consumer, unnamed, between) at h)
            | inr provider ↦
                let (contracts, looked_up, h') =
                  >>=-eq-ok (on_facade (wrap_errors _ (m.client.signed_contracts _ _))) _ f
                    (rw (consumer, provider, between) at h) in
                record {
                  contracts = contracts;
                  consumer = ne_nil _ consumer;
                  provider = ne_nil _ provider;
                  looked_up = wrapped-eq-ok _ _ contracts looked_up;
                  items = under_contracts-FromItems _ _ (to_list contracts) b decoded _ out body h';
                }
          ]
        ]

    of_decoded-FromContracts :
        (parties : Option Parties) (b : Option Body) (decoded : Json) (f : Frame S)
        (out : Slice Claim)
        → decode_json_body lib b ≡ ok decoded
        → (of_decoded lib m parties decoded f).0 ≡ ok out
        → FromContracts parties b f.facade out
    unfolding of_decoded
    of_decoded-FromContracts parties b null f out body h = cc
    of_decoded-FromContracts parties b decoded f out body h =
        between-FromContracts parties b decoded f out body h

    pub contract_claims-FromContracts :
        (req : ResolveRequest) (s : S) (out : Slice Claim)
        → (contract_claims lib m req (fresh req.body s)).0 ≡ ok out
        → FromContracts req.parties req.body s out
    unfolding contract_claims
    contract_claims-FromContracts req s out h =
        let (decoded, read, h') =
          >>=-eq-ok (on_payload (Payload.json lib)) (of_decoded lib m req.parties)
            (fresh req.body s) h in
        of_decoded-FromContracts req.parties req.body decoded _ out
          (sym (json-new lib req.body) ∙ read) h'

  -- What the claims of each kind of matcher rest on.
  abbrev pub Justified : {S : Type 0} → Matcher S → ResolveRequest → S → Slice Claim → Type 0
  Justified (path m) req s out = PathOwner m req.resource.path out
  Justified (json m) req s out =
      FromItems (OwnerAt m.owner_ptr) m.items m.items_is_array req.body out
  Justified (static m) req s out =
      (c : Claim) × (out ≡ some (c ∷ [])) × (c.owner_id ≡ m.owner) × (c.data_resource ≡ m.resource)
  Justified (contract m) req s out = FromContracts m req.parties req.body s out

  -- Whatever a matcher answers is justified: a path matcher's one owner is the owner group of the
  -- path, a static matcher's is the configured one, a json matcher's claims name the owner found in
  -- each item, and a contract matcher's claims do so for objects that a contract of the looked-up
  -- pair governs.
  pub claims-Justified :
      {S : Type 0} (m : Matcher S) (req : ResolveRequest) (s : S) (out : Slice Claim)
      → (claims lib m req (fresh req.body s)).0 ≡ ok out
      → Justified m req s out
  unfolding claims static_claims
  claims-Justified (path m) req s out h = path_claims-PathOwner lib m req out h
  claims-Justified (json m) req s out h = json_claims-FromItems m req.body s out h
  claims-Justified (static m) req s out h = (_, sym (ok-injective h), refl, refl)
  claims-Justified (contract m) req s out h = contract_claims-FromContracts m req s out h
