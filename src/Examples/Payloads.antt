-- ===== src/Examples/Payloads.antt =====
-- Pointers, the items of a payload, and the contract that governs an object.
use consent_owner_resolver.Prelude.{
  ℕ, true, none, some, List, [], ◌∷◌, ◌≡◌, ◌≤◌, ◌^◌, refl, arith, Bytes, str, ◌==◌, has_prefix, ok,
  length, All,
}
use mathlib.Core.Path.{subst}
use consent_owner_resolver.Prelude.Exec.{Exec, lift}
use consent_owner_resolver.Json.{Json, Elements, array, nil, cons, elements, lookup}
use consent_owner_resolver.Go.Strconv.{itoa, atoi}
use consent_owner_resolver.Go.Strings.{split, replace_all}
use consent_owner_resolver.Pointer.{
  get_json_pointer, walk, step, unescape, escape, join_pointer, pointer_string,
}
use consent_owner_resolver.Pointer.Laws.{print, navigate, get_json_pointer-print}
use consent_owner_resolver.Types.{Claim}
use consent_owner_resolver.Items.{claims_per_item, claims_from}
use consent_owner_resolver.Items.Origin.{Fits, Builds, Located}
use consent_owner_resolver.Items.Laws.{claims_per_item-Located}
use consent_owner_resolver.Matcher.JsonMatcher.{JsonMatcher, json_claim_for_item, required}
use consent_owner_resolver.Matcher.Owners.{OwnerAt, json_claim_for_item-OwnerAt}
use consent_owner_resolver.Contract.{Contract, Policy}
use consent_owner_resolver.Governing.{targets, permits, prohibits, find_contract_for_target}
use consent_owner_resolver.Governing.Laws.{Found, find_contract_for_target-Found}
use consent_owner_resolver.Examples.{go, document, two_documents, two_claims, signed_contract}

reads : Unit {0}
unfolding str ◌==◌ has_prefix get_json_pointer split walk step atoi itoa unescape escape
    join_pointer replace_all lookup pointer_string claims_per_item claims_from json_claim_for_item
    required print navigate find_contract_for_target targets permits prohibits
reads = tt

pointer_tests :
    (pointer_string two_documents (str "/docs/1/owner") ≡ some (str "bob"))
    × (pointer_string two_documents (str "/docs/2/owner") ≡ none)
    × (pointer_string two_documents (str "docs") ≡ none)
    × (get_json_pointer two_documents (str "/docs/-1") ≡ none)
unfolding reads
pointer_tests = (refl, refl, refl, refl)

-- `Atoi` takes a sign and leading zeros, so that an element has more than one pointer.
lax_index : pointer_string two_documents (str "/docs/+01/owner") ≡ some (str "bob")
unfolding reads
lax_index = refl

get_json_pointer-print_example :
    get_json_pointer two_documents (print (str "docs" ∷ str "1" ∷ []))
    ≡ navigate two_documents (str "docs" ∷ str "1" ∷ [])
get_json_pointer-print_example = get_json_pointer-print two_documents (str "docs" ∷ str "1" ∷ [])

abbrev owners_of_docs : JsonMatcher
owners_of_docs = record {
  items = str "/docs";
  items_is_array = true;
  owner_ptr = str "/owner";
  resource_ptr = [];
  resource = [];
  participant = [];
}

abbrev build_doc : Json → Bytes → Exec ℕ Claim
build_doc item selector = lift (json_claim_for_item go owners_of_docs item selector)

build_doc-Builds : Builds (OwnerAt (str "/owner")) build_doc
build_doc-Builds item selector s c h =
    json_claim_for_item-OwnerAt go owners_of_docs item selector c h

abbrev doc_claims : List Claim
doc_claims = elim two_claims.claims [ none ↦ [] | some cs ↦ cs ]

built :
    (claims_per_item go two_documents (str "/docs") true (str "m") build_doc 0).0
    ≡ ok (some doc_claims)
unfolding reads
built = refl

same_array : (es fs : Elements) → some (array es) ≡ some (array fs) → es ≡ fs
same_array es fs h = cc

two_documents-Fits : Fits two_documents (str "/docs")
unfolding reads
two_documents-Fits es found =
    subst (λ fs. length (elements fs) ≤ 2 ^ 63)
      (same_array
        (cons (document (str "d1") (str "ann")) (cons (document (str "d2") (str "bob")) nil)) es
        found)
      (omega arith)

claims_per_item-Located_example : All (Located (OwnerAt (str "/owner")) two_documents) doc_claims
claims_per_item-Located_example =
    claims_per_item-Located go (OwnerAt (str "/owner")) build_doc build_doc-Builds two_documents
      (str "/docs") true (str "m") 0 doc_claims two_documents-Fits built

abbrev over : Bytes → Policy
over uri = record {
  uid = str "p1";
  permission =
      record { target = []; asset_target = str "/docs/1"; action = str "use" }
      ∷ record { target = []; asset_target = str "/docs/2"; action = str "use" }
      ∷ [];
  prohibition = record { target = []; asset_target = uri; action = str "use" } ∷ [];
}

-- The first contract prohibits what it permits, and the second governs.
abbrev listed : List Contract
listed =
    record signed_contract { id = str "c1"; policy = over (str "/docs/1") ∷ [] }
    ∷ record signed_contract { id = str "c2"; policy = over (str "/docs/2") ∷ [] }
    ∷ []

found_second :
    find_contract_for_target listed (str "/docs/1")
    ≡ some (record signed_contract { id = str "c2"; policy = over (str "/docs/2") ∷ [] })
unfolding reads
found_second = refl

find_contract_for_target-Found_example :
    Found (str "/docs/1") listed (find_contract_for_target listed (str "/docs/1"))
find_contract_for_target-Found_example = find_contract_for_target-Found (str "/docs/1") listed
