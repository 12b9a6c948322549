-- ===== src/Examples/Matchers.antt =====
-- A contract matcher that governs two documents, and a json matcher on the same body.
use consent_owner_resolver.Prelude.{
  ℕ, suc, ◌≤◌, ◌^◌, true, some, List, [], ◌∷◌, ◌≡◌, ◌≢◌, refl, arith, Bytes, str, ◌==◌, has_prefix,
  All, length, ok,
}
use mathlib.Core.Path.{subst}
use consent_owner_resolver.Prelude.Dict.{get, put}
use consent_owner_resolver.Json.{Elements, array, elements, nil, cons, lookup}
use consent_owner_resolver.Go.Strconv.{itoa, atoi}
use consent_owner_resolver.Go.Strings.{split, replace_all}
use consent_owner_resolver.Types.{Claim, ResolveRequest}
use consent_owner_resolver.Pointer.{
  get_json_pointer, walk, step, unescape, escape, join_pointer, pointer_string,
}
use consent_owner_resolver.Payload
use consent_owner_resolver.Payload.{new_lazy_payload, decode_json_body}
use consent_owner_resolver.Items.{claims_per_item, claims_from}
use consent_owner_resolver.Items.Origin.{Fits}
use consent_owner_resolver.Contract.{Rule, Contract}
use consent_owner_resolver.Governing.{
  targets, permits, prohibits, find_contract_for_target, first_pii_resource,
}
use consent_owner_resolver.Lookup.{ContractLookup}
use consent_owner_resolver.Matcher.{claims, json, contract}
use consent_owner_resolver.Matcher.JsonMatcher.{
  JsonMatcher, json_claims, json_claim_for_item, required,
}
use consent_owner_resolver.Matcher.ContractMatcher.{
  ContractMatcher, PiiResource, Memo, contract_claims, contract_claim_for_item, pii, keep,
  consumer_of, provider_of, on_memo,
}
use consent_owner_resolver.Matcher.Justified.{fresh}
use consent_owner_resolver.Matcher.Located.{
  IsOwnedAt, json_claims-IsOwnedAt, contract_claims-IsOwnedAt,
}
use consent_owner_resolver.Matcher.Memo.{pii-pii}
use consent_owner_resolver.Examples.{
  go, document, two_documents, ask, json_body, acme, claim_at, signed_contract, address,
}

matches_items : Unit {0}
unfolding str ◌==◌ has_prefix get_json_pointer split walk step atoi itoa unescape escape
    join_pointer replace_all lookup pointer_string claims_per_item claims_from json_claim_for_item
    required claims json_claims contract_claims contract_claim_for_item pii keep get put consumer_of
    provider_of on_memo find_contract_for_target targets permits prohibits first_pii_resource
    Payload.json new_lazy_payload decode_json_body
matches_items = tt

abbrev use_of : Bytes → Rule
use_of uri = record { target = []; asset_target = uri; action = str "use" }

abbrev both : Contract
both = record signed_contract {
  policy =
      record {
        uid = str "p1";
        permission = use_of (str "d1") ∷ use_of (str "d2") ∷ [];
        prohibition = [];
      }
      ∷ [];
}

-- The state counts the fetches of resources.
abbrev client : ContractLookup ℕ
client = record {
  signed_contracts = λ provider consumer s. (ok (some (both ∷ [])), s);
  data_resources = λ ct s. (ok (some (address ∷ [])), suc s);
}

abbrev governed : ContractMatcher ℕ
governed = record {
  client = client;
  provider_sd = str "p";
  items = str "/docs";
  items_is_array = true;
  owner_ptr = str "/owner";
  uri_ptr = str "/id";
  participant = [];
}

abbrev plain : JsonMatcher
plain = record {
  items = str "/docs";
  items_is_array = true;
  owner_ptr = str "/owner";
  resource_ptr = [];
  resource = [];
  participant = [];
}

abbrev get_docs : ResolveRequest
get_docs = record (ask (str "docs") (str "/docs") (json_body (str "two"))) { parties = acme }

abbrev plain_claims : List Claim
plain_claims = claim_at (str "/docs/0") (str "ann") ∷ claim_at (str "/docs/1") (str "bob") ∷ []

abbrev governed_claims : List Claim
governed_claims =
    record (claim_at (str "/docs/0") (str "ann")) { data_resource = str "r1" }
    ∷ record (claim_at (str "/docs/1") (str "bob")) { data_resource = str "r1" }
    ∷ []

plain_answer :
    (claims {S = ℕ} go (json plain) get_docs (fresh get_docs.body 0)).0 ≡ ok (some plain_claims)
unfolding matches_items
plain_answer = refl

governed_answer :
    (claims go (contract governed) get_docs (fresh get_docs.body 0)).0 ≡ ok (some governed_claims)
unfolding matches_items
governed_answer = refl

-- Two items under one contract: its resources are fetched once.
one_fetch : (claims go (contract governed) get_docs (fresh get_docs.body 0)).1.facade ≡ 1
unfolding matches_items
one_fetch = refl

same_array : (es fs : Elements) → some (array es) ≡ some (array fs) → es ≡ fs
same_array es fs h = cc

docs-Fits : Fits two_documents (str "/docs")
unfolding matches_items
docs-Fits es found =
    subst (λ fs. length (elements fs) ≤ 2 ^ 63)
      (same_array
        (cons (document (str "d1") (str "ann")) (cons (document (str "d2") (str "bob")) nil)) es
        found)
      (omega arith)

docs_decoded : decode_json_body go get_docs.body ≡ ok two_documents
unfolding matches_items
docs_decoded = refl

json_claims-IsOwnedAt_example : All (IsOwnedAt two_documents (str "/owner")) plain_claims
json_claims-IsOwnedAt_example =
    json_claims-IsOwnedAt go plain get_docs 0 two_documents plain_claims docs_decoded docs-Fits
      plain_answer

contract_claims-IsOwnedAt_example : All (IsOwnedAt two_documents (str "/owner")) governed_claims
contract_claims-IsOwnedAt_example =
    contract_claims-IsOwnedAt go governed get_docs 0 two_documents governed_claims docs_decoded
      docs-Fits governed_answer

abbrev empty_memo : Memo ℕ
empty_memo = record { by_id = []; facade = 0 }

abbrev first : PiiResource
first = record { id = str "r1"; found = true }

fetched_first : (pii client both empty_memo).0 ≡ ok first
unfolding matches_items
fetched_first = refl

c1-named : both.id ≢ []
unfolding matches_items
c1-named = cc

pii-pii_example :
    pii client both (pii client both empty_memo).1 ≡ (ok first, (pii client both empty_memo).1)
pii-pii_example = pii-pii client both both empty_memo first c1-named refl fetched_first
