-- ===== src/Matcher/ContractMatcher.antt =====
-- internal/resolver/contract_matcher.go: the contract matcher. `S` is the state behind the lookup.
use consent_owner_resolver.Prelude.{
  Bool, true, false, Option, none, some, List, [], ◌∷◌, ◌++◌, Bytes, str, ◌==◌, if◌then◌else◌,
  error, Error, wrap, Result, ok, err, panicked,
}
use consent_owner_resolver.Prelude.Exec.{Exec, lift, ◌>>=◌}
use consent_owner_resolver.Prelude.Dict.{Dict, get, put}
use consent_owner_resolver.Json.{Json, null}
use consent_owner_resolver.Go.Library.{Library}
use consent_owner_resolver.Pointer.{pointer_string}
use consent_owner_resolver.Types.{Slice, Parties, ResolveRequest, Claim, selector_json_pointer}
use consent_owner_resolver.Payload.{json}
use consent_owner_resolver.Items.{claims_per_item}
use consent_owner_resolver.RawConfig.{RawMatcher}
use consent_owner_resolver.Contract.{Contract, DataResource}
use consent_owner_resolver.Lookup.{ContractLookup}
use consent_owner_resolver.Governing.{find_contract_for_target, first_pii_resource}
use consent_owner_resolver.Matcher.Frame.{Frame, on_payload, on_facade}
use consent_owner_resolver.Matcher.JsonMatcher.{required}

pub record ContractMatcher (S : Type 0) : Type 0 where
  pub client : ContractLookup S
  pub provider_sd : Bytes
  pub items : Bytes
  pub items_is_array : Bool
  pub owner_ptr : Bytes
  pub uri_ptr : Bytes
  pub participant : Bytes

abbrev pub contract_matcher_name : Bytes
contract_matcher_name = str "contract matcher"

abbrev pub default_uri_pointer : Bytes
default_uri_pointer = str "/id"

module _ {S : Type 0} where
  unfoldable pub new_contract_matcher :
      RawMatcher → Option (ContractLookup S) → Bytes → Result (ContractMatcher S)
  new_contract_matcher m none provider_sd =
      err (error (contract_matcher_name ++ str ": contractService is not configured"))
  new_contract_matcher m (some client) provider_sd =
      if m.owner == []
      then err (error (contract_matcher_name ++ str ": 'owner' pointer is required"))
      else ok (record {
        client = client;
        provider_sd = provider_sd;
        items = m.items;
        items_is_array = m.items_is_array;
        owner_ptr = m.owner;
        uri_ptr = if m.uri_pointer == [] then default_uri_pointer else m.uri_pointer;
        participant = m.participant;
      })

pub record PiiResource : Type 0 where
  pub id : Bytes
  pub found : Bool

-- `perRequestResources`: its client is that of the matcher, and its map lasts for one request.
pub record Memo (S : Type 0) : Type 0 where
  pub by_id : Dict PiiResource
  pub facade : S

unfoldable pub pii_of : Option DataResource → PiiResource
pii_of none = record { id = []; found = false }
pii_of (some r) = record { id = r.id; found = true }

abbrev pub to_list : {A : Type 0} → Slice A → List A
to_list none = []
to_list (some xs) = xs

module _ {S : Type 0} (client : ContractLookup S) where
  unfoldable pub keep : Bytes → PiiResource → Dict PiiResource → Dict PiiResource
  keep id result by_id = if id == [] then by_id else put by_id id result

  unfoldable pub fetched :
      Contract → Dict PiiResource → Result (Slice DataResource) × S → Result PiiResource × Memo S
  unfolding keep pii_of
  fetched c by_id (ok resources, s) =
      let result = pii_of (first_pii_resource (to_list resources)) in
      (ok result, record { by_id = keep c.id result by_id; facade = s })
  fetched c by_id (err e, s) = (err e, record { by_id = by_id; facade = s })
  fetched c by_id (panicked, s) = (panicked, record { by_id = by_id; facade = s })

  unfoldable pub remembered : Contract → Dict PiiResource → Option PiiResource
  remembered c by_id = if c.id == [] then none else get by_id c.id

  -- `pii`: at most one fetch for each contract that has an id.
  unfoldable pub pii : Contract → Exec (Memo S) PiiResource
  unfolding remembered fetched
  pii c memo = elim (remembered c memo.by_id) [
    | some cached ↦ (ok cached, memo)
    | none ↦ fetched c memo.by_id (client.data_resources c memo.facade)
  ]

unfoldable pub wrapped : {A : Type 0} → Bytes → Result A → Result A
wrapped prefix (ok a) = ok a
wrapped prefix (err e) = err (wrap prefix e)
wrapped prefix panicked = panicked

-- The error of an action, with a prefix.
unfoldable pub wrap_errors : {S A : Type 0} → Bytes → Exec S A → Exec S A
unfolding wrapped
wrap_errors prefix m s = let (r, t) = m s in (wrapped prefix r, t)

unfoldable pub governing_or : Error → Option Contract → Result Contract
governing_or e none = err e
governing_or e (some c) = ok c

-- The memo of one request begins empty.
unfoldable pub on_memo : {S A : Type 0} → Exec (Memo S) A → Exec (Frame S) A
on_memo m f =
    let (r, memo) = m (record { by_id = []; facade = f.facade }) in
    (r, record f { facade = memo.facade })

-- The two sides of the exchange, as the request names them.
unfoldable pub consumer_of : Option Parties → Bytes
consumer_of none = []
consumer_of (some p) = p.consumer

unfoldable pub provider_of : Bytes → Option Parties → Bytes
provider_of provider_sd none = provider_sd
provider_of provider_sd (some p) = if p.provider == [] then provider_sd else p.provider

module _ (lib : Library) {S : Type 0} (m : ContractMatcher S) where
  unfoldable pub problem : Bytes → Error
  problem what = error (contract_matcher_name ++ str ": " ++ what)

  -- A contract without a PII resource gives a claim on the owner alone.
  unfoldable pub claim_of : Bytes → Bytes → PiiResource → Claim
  claim_of selector owner resource = record {
    selector = record { type = selector_json_pointer; value = selector };
    owner_id = owner;
    participant = m.participant;
    data_resource = if resource.found then resource.id else [];
  }

  -- `claimForItem`.
  unfoldable pub contract_claim_for_item : List Contract → Json → Bytes → Exec (Memo S) Claim
  unfolding problem claim_of governing_or wrap_errors
  contract_claim_for_item contracts item selector = do
    owner ← lift (
        required (problem (str "no owner at " ++ lib.quote m.owner_ptr))
          (pointer_string item m.owner_ptr))
    requested_uri ← lift (
        required (problem (str "no requested-object URI at " ++ lib.quote m.uri_ptr))
          (pointer_string item m.uri_ptr))
    governing ← lift (
        governing_or (problem (str "no contract rule targets " ++ lib.quote requested_uri))
          (find_contract_for_target contracts requested_uri))
    resource ←
        wrap_errors
          (contract_matcher_name
            ++ str ": resolving data resources of contract "
            ++ lib.quote governing.id
            ++ str ": ")
          (pii m.client governing)
    lift (ok (claim_of selector owner resource))

  unfoldable pub under_contracts :
      Bytes → Bytes → List Contract → Json → Exec (Frame S) (Slice Claim)
  unfolding problem contract_claim_for_item on_memo
  under_contracts provider consumer [] decoded = lift (
      err (
        problem (
          str "no signed contract between "
          ++ lib.quote provider
          ++ str " and "
          ++ lib.quote consumer)))
  under_contracts provider consumer (c ∷ cs) decoded = on_memo (
      claims_per_item lib decoded m.items m.items_is_array contract_matcher_name
        (contract_claim_for_item (c ∷ cs)))

  unfoldable pub between : Bytes → Bytes → Json → Exec (Frame S) (Slice Claim)
  unfolding under_contracts problem wrap_errors
  between provider consumer decoded =
      if consumer == []
      then lift (err (problem (str "parties.consumer is required to identify the contract")))
      else if provider == []
      then lift (
          err (
            problem (
              str "no provider self-description (set parties.provider or "
              ++ str "contractService.providerSelfDescription)")))
      else do
        contracts ← on_facade (
            wrap_errors (contract_matcher_name ++ str ": contract lookup failed: ")
              (m.client.signed_contracts provider consumer))
        under_contracts provider consumer (to_list contracts) decoded

  unfoldable pub of_decoded : Option Parties → Json → Exec (Frame S) (Slice Claim)
  unfolding between problem
  of_decoded parties null =
      lift (err (problem (str "a JSON body is required but none was decoded")))
  of_decoded parties decoded =
      between (provider_of m.provider_sd parties) (consumer_of parties) decoded

  -- `Claims` of the contract matcher.
  unfoldable pub contract_claims : ResolveRequest → Exec (Frame S) (Slice Claim)
  unfolding of_decoded
  contract_claims req = do decoded ← on_payload (json lib); of_decoded req.parties decoded
