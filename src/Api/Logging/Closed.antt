-- ===== src/Api/Logging/Closed.antt =====
-- The classes of internal/api/logging.go, for the errors of the contract matcher and of Resolve.

use consent_owner_resolver.Prelude.{
  Option, List, [], ◌∷◌, ◌++◌, ◌≡◌, inl, inr, refl, sym, Bytes, str, ◌==◌, Bool-cases, Error,
  Result, ok, err, panicked,
}
use mathlib.Core.Path.{subst}
use consent_owner_resolver.Prelude.Exec.{lift}
use consent_owner_resolver.Json.{Json, null}
use consent_owner_resolver.Go.Library.{Library}
use consent_owner_resolver.Types.{Slice, Body, Claim, Parties, ResolveRequest}
use consent_owner_resolver.Contract.{Contract}
use consent_owner_resolver.Payload
use consent_owner_resolver.Payload.{
  decode_json_body, decoded_string, decoded_base64, or_bad_request, or_opaque, new_lazy_payload,
}
use consent_owner_resolver.Payload.Laws.{json-new}
use consent_owner_resolver.Items.{no_data, not_array}
use consent_owner_resolver.Governing.{find_contract_for_target}
use consent_owner_resolver.Pointer.{pointer_string}
use consent_owner_resolver.Matcher.{Matcher, path, json, static, contract, claims}
use consent_owner_resolver.Matcher.Frame.{Frame, on_payload, on_facade}
use consent_owner_resolver.Matcher.StaticMatcher.{static_claims}
use consent_owner_resolver.Matcher.JsonMatcher.{
  JsonMatcher, required, items_of, json_claims, json_matcher_name,
}
use consent_owner_resolver.Matcher.ContractMatcher.{
  ContractMatcher, Memo, wrap_errors, problem, governing_or, contract_claim_for_item,
  under_contracts, between, of_decoded, contract_claims, pii, to_list, contract_matcher_name,
}
use consent_owner_resolver.Matcher.Justified.{fresh}
use consent_owner_resolver.Rules.{CompiledRule, ConfigResolver, matches}
use consent_owner_resolver.Resolve.{result_of, apply_rule, resolve_from, resolve}
use consent_owner_resolver.Api.Logging.{error_class}
use consent_owner_resolver.Api.Logging.Classes.{
  IsListed, Listed, exec-Listed, decode_json_body-Listed,
}
use consent_owner_resolver.Api.Logging.Leaves.{
  wrapped-Listed, governing_or-Listed, pii_prefix, pii_prefix-IsListed, path_claims-Listed,
  required-Listed, json_claim_for_item-Listed, claims_per_item-Listed,
}

module _ (lib : Library) where
  module _ {S : Type 0} where
    items_of-Listed :
        (m : JsonMatcher) (decoded : Json) (f : Frame S) → Listed (items_of lib m decoded f).0
    unfolding items_of error_class no_data not_array
    items_of-Listed m null f = inr (inl refl)
    items_of-Listed m decoded f =
        claims_per_item-Listed lib json_matcher_name _
          (λ item selector s. json_claim_for_item-Listed lib m item selector) m.items
          (inr (inl refl)) (inr (inl refl)) decoded m.items_is_array f

    payload-Listed :
        (b : Option Body) (s : S) → Listed (on_payload {S = S} (Payload.json lib) (fresh b s)).0
    payload-Listed b s = subst Listed (sym (json-new lib b)) (decode_json_body-Listed lib b)

    problem-Listed : (m : ContractMatcher S) (what : Bytes) → IsListed (problem lib m what)
    unfolding problem error_class
    problem-Listed m what = inr (inr (inl refl))

    contract_claim_for_item-Listed :
        (m : ContractMatcher S) (contracts : List Contract) (item : Json) (selector : Bytes)
        (memo : Memo S)
        → Listed (contract_claim_for_item lib m contracts item selector memo).0
    unfolding contract_claim_for_item error_class
    contract_claim_for_item-Listed m contracts item selector memo =
        exec-Listed
          (lift (
            required (problem lib m (str "no owner at " ++ lib.quote m.owner_ptr))
              (pointer_string item m.owner_ptr)))
          _ memo
          (required-Listed lib _ _ (problem-Listed m (str "no owner at " ++ lib.quote m.owner_ptr)))
          λ owner t.
            exec-Listed
              (lift (
                required (problem lib m (str "no requested-object URI at " ++ lib.quote m.uri_ptr))
                  (pointer_string item m.uri_ptr)))
              _ t
              (required-Listed lib _ _
                (problem-Listed m (str "no requested-object URI at " ++ lib.quote m.uri_ptr)))
              λ uri u.
                exec-Listed
                  (lift (
                    governing_or (problem lib m (str "no contract rule targets " ++ lib.quote uri))
                      (find_contract_for_target contracts uri)))
                  _ u
                  (governing_or-Listed _ (find_contract_for_target contracts uri)
                    (problem-Listed m (str "no contract rule targets " ++ lib.quote uri)))
                  λ governing v.
                    exec-Listed (wrap_errors (pii_prefix lib governing) (pii m.client governing)) _
                      v
                      (wrapped-Listed (pii_prefix lib governing) (pii m.client governing v).0
                        (pii_prefix-IsListed lib governing))
                      λ resource z. tt

    under_contracts-Listed :
        (m : ContractMatcher S) (provider consumer : Bytes) (cs : List Contract) (decoded : Json)
        (f : Frame S)
        → Listed (under_contracts lib m provider consumer cs decoded f).0
    unfolding under_contracts no_data not_array error_class
    under_contracts-Listed m provider consumer [] decoded f = problem-Listed m (
        str "no signed contract between "
        ++ lib.quote provider
        ++ str " and "
        ++ lib.quote consumer)
    under_contracts-Listed m provider consumer (c ∷ cs) decoded f =
        claims_per_item-Listed lib contract_matcher_name (contract_claim_for_item lib m (c ∷ cs))
          (contract_claim_for_item-Listed m (c ∷ cs)) m.items (inr (inr (inl refl)))
          (inr (inr (inl refl))) decoded m.items_is_array (record { by_id = []; facade = f.facade })

    between-Listed :
        (m : ContractMatcher S) (provider consumer : Bytes) (decoded : Json) (f : Frame S)
        → Listed (between lib m provider consumer decoded f).0
    unfolding between error_class
    between-Listed m provider consumer decoded f = elim (Bool-cases (consumer == [])) [
      | inl nobody ↦
          rw (nobody, between)
            (problem-Listed m (str "parties.consumer is required to identify the contract"))
      | inr somebody ↦ elim (Bool-cases (provider == [])) [
        | inl unset ↦
            rw (somebody, unset, between)
              (problem-Listed m (
                str "no provider self-description (set parties.provider or "
                ++ str "contractService.providerSelfDescription)"))
        | inr set ↦
            rw (somebody, set, between)
              (exec-Listed
                (on_facade (
                  wrap_errors (contract_matcher_name ++ str ": contract lookup failed: ")
                    (m.client.signed_contracts provider consumer)))
                _ f
                (wrapped-Listed (contract_matcher_name ++ str ": contract lookup failed: ")
                  (m.client.signed_contracts provider consumer f.facade).0
                  (λ why bad. inr (inr (inl refl))))
                λ contracts g.
                  under_contracts-Listed m provider consumer (to_list contracts) decoded g)
      ]
    ]

    of_decoded-Listed :
        (m : ContractMatcher S) (parties : Option Parties) (decoded : Json) (f : Frame S)
        → Listed (of_decoded lib m parties decoded f).0
    unfolding of_decoded
    of_decoded-Listed m parties null f =
        problem-Listed m (str "a JSON body is required but none was decoded")
    of_decoded-Listed m parties decoded f = between-Listed m _ _ decoded f

    claims-Listed :
        (m : Matcher S) (req : ResolveRequest) (s : S)
        → Listed (claims lib m req (fresh req.body s)).0
    unfolding claims json_claims contract_claims static_claims
    claims-Listed (path m) req s = path_claims-Listed lib m req
    claims-Listed (json m) req s =
        exec-Listed (on_payload (Payload.json lib)) _ (fresh req.body s) (payload-Listed req.body s)
          (items_of-Listed m)
    claims-Listed (static m) req s = tt
    claims-Listed (contract m) req s =
        exec-Listed (on_payload (Payload.json lib)) _ (fresh req.body s) (payload-Listed req.body s)
          (of_decoded-Listed m req.parties)

    result_of-Listed :
        (rule : CompiledRule S) (r : Result (Slice Claim) × Frame S)
        → Listed r.0
        → Listed (result_of lib rule r).0
    unfolding result_of
    result_of-Listed rule (ok cs, f) h = tt
    result_of-Listed rule (err e, f) h = h
    result_of-Listed rule (panicked, f) h = tt

    resolve_from-Listed :
        (r : ConfigResolver S) (req : ResolveRequest) (rules : List (CompiledRule S)) (s : S)
        → Listed (resolve_from lib r req (new_lazy_payload req.body) rules s).0
    unfolding resolve_from apply_rule
    resolve_from-Listed r req [] s = tt
    resolve_from-Listed r req (rule ∷ rules) s = elim (Bool-cases (matches rule req)) [
      | inl yes_match ↦ rw yes_match (result_of-Listed rule _ (claims-Listed rule.matcher req s))
      | inr skip ↦ rw skip (resolve_from-Listed r req rules s)
    ]

    -- Whatever the rules, the request and the state of the facade are, an error of the resolver has
    -- one of seven fixed texts as its class.
    pub resolve-IsListed :
        (r : ConfigResolver S) (req : ResolveRequest) (s : S) (e : Error)
        → (resolve lib r req s).0 ≡ err e
        → IsListed e
    unfolding resolve
    resolve-IsListed r req s e h = subst Listed h (resolve_from-Listed r req r.rules s)
