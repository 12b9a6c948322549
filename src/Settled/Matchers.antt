-- ===== src/Settled/Matchers.antt =====
-- Panics of the matchers of internal/resolver/matcher.go and contract_matcher.go, and of the loop of
-- items.go.
use consent_owner_resolver.Prelude.{
  ℕ, suc, inl, inr, sym, Bool, true, false, Option, none, some, List, [], ◌∷◌, Bytes, ◌==◌,
  Bool-cases, Option-cases, Error, Result, ok, err, panicked,
}
use mathlib.Core.Path.{subst}
use consent_owner_resolver.Prelude.Exec.{Exec, lift}
use consent_owner_resolver.Prelude.Dict.{Dict}
use consent_owner_resolver.Json.{Json, null, array, elements}
use consent_owner_resolver.Go.Library.{Library}
use consent_owner_resolver.Types.{Slice, Claim, Body, Parties, ResolveRequest}
use consent_owner_resolver.Contract.{Contract, DataResource}
use consent_owner_resolver.Lookup.{ContractLookup}
use consent_owner_resolver.Governing.{find_contract_for_target}
use consent_owner_resolver.Pointer.{get_json_pointer, pointer_string}
use consent_owner_resolver.Payload
use consent_owner_resolver.Payload.{
  decode_json_body, decoded_string, decoded_base64, or_bad_request, or_opaque,
}
use consent_owner_resolver.Payload.Laws.{json-new}
use consent_owner_resolver.Items.{
  claims_from, claims_of_array, claims_of_root, claims_per_item, one_claim,
}
use consent_owner_resolver.Matcher.{Matcher, path, json, static, contract, claims}
use consent_owner_resolver.Matcher.Frame.{Frame, on_payload, on_facade}
use consent_owner_resolver.Matcher.Justified.{fresh}
use consent_owner_resolver.Matcher.StaticMatcher.{static_claims}
use consent_owner_resolver.Matcher.JsonMatcher.{
  JsonMatcher, json_matcher_name, required, items_of, json_claims,
}
use consent_owner_resolver.Matcher.ContractMatcher.{
  ContractMatcher, Memo, PiiResource, contract_matcher_name, to_list, wrapped, wrap_errors,
  governing_or, fetched, remembered, pii, contract_claim_for_item, under_contracts, between,
  of_decoded, contract_claims,
}
use consent_owner_resolver.Settled.{Settles, exec-Settles}
use consent_owner_resolver.Settled.Client.{IsSettling}
use consent_owner_resolver.Settled.Leaves.{
  IsReady, path_claims-Settles, decode_json_body-Settles, required-Settles,
  json_claim_for_item-Settles,
}

module _ (lib : Library) {S : Type 0} where
  module _ (matcher : Bytes) (build : Json → Bytes → Exec S Claim)
      (builds : (item : Json) (selector : Bytes) (s : S) → Settles (build item selector s).0)
      (items : Bytes) where
    claims_from-Settles :
        (i : ℕ) (rest : List Json) (s : S) → Settles (claims_from lib items build i rest s).0
    unfolding claims_from
    claims_from-Settles i [] s = tt
    claims_from-Settles i (item ∷ rest) s =
        exec-Settles (build item _) _ s (builds item _ s) (λ c t.
          exec-Settles (claims_from lib items build (suc i) rest) _ t
            (claims_from-Settles (suc i) rest t) (λ cs u. tt))

    claims_of_array-Settles :
        (root : Json) (s : S) → Settles (claims_of_array lib items matcher build root s).0
    unfolding claims_of_array
    claims_of_array-Settles (array es) s =
        exec-Settles (claims_from lib items build 0 (elements es)) _ s
          (claims_from-Settles 0 (elements es) s) (λ cs u. tt)
    claims_of_array-Settles root s = tt

    claims_of_root-Settles :
        (is_array : Bool) (o : Option Json) (s : S)
        → Settles (claims_of_root lib items is_array matcher build o s).0
    unfolding claims_of_root one_claim
    claims_of_root-Settles is_array none s = tt
    claims_of_root-Settles true (some root) s = claims_of_array-Settles root s
    claims_of_root-Settles false (some root) s =
        exec-Settles (build root items) _ s (builds root items s) (λ c u. tt)

    claims_per_item-Settles :
        (decoded : Json) (is_array : Bool) (s : S)
        → Settles (claims_per_item lib decoded items is_array matcher build s).0
    unfolding claims_per_item
    claims_per_item-Settles decoded is_array s =
        claims_of_root-Settles is_array (get_json_pointer decoded items) s

wrapped-Settles :
    {A : Type 0} (prefix : Bytes) (r : Result A) → Settles r → Settles (wrapped prefix r)
unfolding wrapped
wrapped-Settles prefix (ok a) h = tt
wrapped-Settles prefix (err e) h = tt
wrapped-Settles prefix panicked h = h

governing_or-Settles : (e : Error) (o : Option Contract) → Settles (governing_or e o)
unfolding governing_or
governing_or-Settles e none = tt
governing_or-Settles e (some c) = tt

module _ {S : Type 0} where
  fetched-Settles :
      (client : ContractLookup S) (c : Contract) (by_id : Dict PiiResource)
      (r : Result (Slice DataResource) × S)
      → Settles r.0
      → Settles (fetched client c by_id r).0
  unfolding fetched
  fetched-Settles client c by_id (ok rs, s) h = tt
  fetched-Settles client c by_id (err e, s) h = tt
  fetched-Settles client c by_id (panicked, s) h = h

  pii-Settles :
      (client : ContractLookup S) (c : Contract) (memo : Memo S)
      → IsSettling client
      → Settles (pii client c memo).0
  unfolding pii
  pii-Settles client c memo h = elim (Option-cases (remembered client c memo.by_id)) [
    | inl new ↦
        rw (pii, new)
          (fetched-Settles client c memo.by_id (client.data_resources c memo.facade)
            (h.resources c memo.facade))
    | inr (cached, known) ↦ rw (pii, known) tt
  ]

  module _ (lib : Library) (m : ContractMatcher S) (settling : IsSettling m.client) where
    contract_claim_for_item-Settles :
        (contracts : List Contract) (item : Json) (selector : Bytes) (memo : Memo S)
        → Settles (contract_claim_for_item lib m contracts item selector memo).0
    unfolding contract_claim_for_item wrap_errors
    contract_claim_for_item-Settles contracts item selector memo =
        exec-Settles (lift (required _ (pointer_string item m.owner_ptr))) _ memo
          (required-Settles lib _ _)
          λ owner t.
            exec-Settles (lift (required _ (pointer_string item m.uri_ptr))) _ t
              (required-Settles lib _ _)
              λ uri u.
                exec-Settles (lift (governing_or _ (find_contract_for_target contracts uri))) _ u
                  (governing_or-Settles _ _)
                  λ governing v.
                    exec-Settles (wrap_errors _ (pii m.client governing)) _ v
                      (wrapped-Settles _ (pii m.client governing v).0
                        (pii-Settles m.client governing v settling))
                      λ resource z. tt

    under_contracts-Settles :
        (provider consumer : Bytes) (cs : List Contract) (decoded : Json) (f : Frame S)
        → Settles (under_contracts lib m provider consumer cs decoded f).0
    unfolding under_contracts
    under_contracts-Settles provider consumer [] decoded f = tt
    under_contracts-Settles provider consumer (c ∷ cs) decoded f =
        claims_per_item-Settles lib contract_matcher_name (contract_claim_for_item lib m (c ∷ cs))
          (contract_claim_for_item-Settles (c ∷ cs)) m.items decoded m.items_is_array
          (record { by_id = []; facade = f.facade })

    between-Settles :
        (provider consumer : Bytes) (decoded : Json) (f : Frame S)
        → Settles (between lib m provider consumer decoded f).0
    unfolding between wrap_errors
    between-Settles provider consumer decoded f = elim (Bool-cases (consumer == [])) [
      | inl nobody ↦ rw (between, nobody) tt
      | inr somebody ↦ elim (Bool-cases (provider == [])) [
        | inl unset ↦ rw (between, somebody, unset) tt
        | inr set ↦
            rw (between, somebody, set)
              (exec-Settles
                (on_facade (wrap_errors _ (m.client.signed_contracts provider consumer))) _ f
                (wrapped-Settles _ (m.client.signed_contracts provider consumer f.facade).0
                  (settling.contracts provider consumer f.facade))
                (λ contracts g.
                  under_contracts-Settles provider consumer (to_list contracts) decoded g))
      ]
    ]

    of_decoded-Settles :
        (parties : Option Parties) (decoded : Json) (f : Frame S)
        → Settles (of_decoded lib m parties decoded f).0
    unfolding of_decoded
    of_decoded-Settles parties null f = tt
    of_decoded-Settles parties decoded f = between-Settles _ _ decoded f

  module _ (lib : Library) where
    items_of-Settles :
        (m : JsonMatcher) (decoded : Json) (f : Frame S) → Settles (items_of lib m decoded f).0
    unfolding items_of
    items_of-Settles m null f = tt
    items_of-Settles m decoded f =
        claims_per_item-Settles lib json_matcher_name _
          (λ item selector s. json_claim_for_item-Settles lib m item selector) m.items decoded
          m.items_is_array f

    payload-Settles :
        (b : Option Body) (s : S) → Settles (on_payload {S = S} (Payload.json lib) (fresh b s)).0
    payload-Settles b s = subst Settles (sym (json-new lib b)) (decode_json_body-Settles lib b)

    pub claims-Settles :
        (m : Matcher S) (req : ResolveRequest) (s : S)
        → IsReady m
        → Settles (claims lib m req (fresh req.body s)).0
    unfolding claims json_claims contract_claims static_claims
    claims-Settles (path m) req s ready = path_claims-Settles lib m req ready
    claims-Settles (json m) req s ready =
        exec-Settles (on_payload (Payload.json lib)) _ (fresh req.body s)
          (payload-Settles req.body s) (items_of-Settles m)
    claims-Settles (static m) req s ready = tt
    claims-Settles (contract m) req s ready =
        exec-Settles (on_payload (Payload.json lib)) _ (fresh req.body s)
          (payload-Settles req.body s) (of_decoded-Settles lib m ready req.parties)
