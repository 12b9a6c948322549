-- ===== src/Examples/Facade.antt =====
-- The client against a facade that answers every request, and the cache in front of it.
use consent_owner_resolver.Prelude.{
  leb, ℕ, ◌+◌, true, false, none, some, List, [], ◌∷◌, ◌++◌, ◌≡◌, ◌≢◌, ◌↔◌, ◌⊎◌, refl, sym, arith,
  Bytes, str, ◌==◌, ltb, All, ok, ok-injective, if◌then◌else◌,
}
use consent_owner_resolver.Prelude.Int.{pos}
use consent_owner_resolver.Prelude.Dict.{Dict, get}
use consent_owner_resolver.Go.Library.{done}
use consent_owner_resolver.Go.Fold.{equal_fold}
use consent_owner_resolver.Types.{Slice}
use consent_owner_resolver.Contract.{Contract, DataResource, VerifyResponse, is_signed}
use consent_owner_resolver.Contract.Encoding.{encode_participant}
use consent_owner_resolver.Contract.Encoding.Laws.{IsByte, IsPadded, encode_participant-IsPadded}
use consent_owner_resolver.Contract.Client.{
  Client, Response, get_json, signed_contracts, verify_url, localize, data_resources, fetch_all,
  read_all,
}
use consent_owner_resolver.Contract.Client.Laws.{Accepted, get_json-Accepted}
use consent_owner_resolver.Contract.Client.Requests.{IsUnderBase, recording, data_resources-Stays}
use consent_owner_resolver.Contract.Client.Hosts.{authority, ends_host, localize-authority}
use consent_owner_resolver.Contract.Client.Contracts.{
  KeepsSigned, signed_contracts-KeepsSigned, verify_url-injective,
}
use consent_owner_resolver.Lookup.{ContractLookup}
use consent_owner_resolver.Cache.{load}
use consent_owner_resolver.Cache.Threads.{
  entered, after_load, moved_to, loads, Calls, call, Reach, at_start, further, IsOrderly,
  Reach-IsOrderly,
}
use consent_owner_resolver.Cache
use consent_owner_resolver.Cache.{
  CacheEntry, sweep_threshold, load, stored, remember, cached_data_resources,
}
use consent_owner_resolver.Cache.Entries.{live, get-stored}
use consent_owner_resolver.Cache.Laws.{IsGenuine, IsBehind, cached_after_store}
use consent_owner_resolver.Examples.{go, network, signed_contract, address}

asks : Unit {0}
unfolding str ◌==◌ is_signed get_json signed_contracts verify_url localize data_resources fetch_all
    authority encode_participant cached_data_resources load stored get read_all equal_fold
asks = tt

abbrev facade : Client
facade = record { base_url = str "https://facade.local"; timeout = pos 3000000000 }

abbrev only_signed : Slice Contract
only_signed = some (signed_contract ∷ [])

asked : (signed_contracts go.quote network facade (str "p") (str "acme") 0).0 ≡ ok only_signed
unfolding asks
asked = refl

signed_contracts-KeepsSigned_example :
    (v : VerifyResponse) × ((get_json go.quote network facade
        (verify_url go.quote network facade (str "p") (str "acme"))
        network.verify_response
        0).0
      ≡ ok v)
    × (((v.verified ≡ false) × (only_signed ≡ none))
        ⊎ ((v.verified ≡ true)
            × (kept : List Contract) × (only_signed ≡ some kept)
            × KeepsSigned v.contracts kept))
signed_contracts-KeepsSigned_example =
    signed_contracts-KeepsSigned go.quote network facade (str "p") (str "acme") 0 only_signed asked

get_json-Accepted_example :
    (resp : Response) × ((network.get facade.timeout (str "https://facade.local/resources/1") 0).0
      ≡ done resp)
    × Accepted network.data_resource address resp
unfolding asks
get_json-Accepted_example =
    get_json-Accepted go.quote network facade (str "https://facade.local/resources/1")
      network.data_resource 0 address refl

data_resources-Stays_example :
    All
      (IsUnderBase facade)
      (data_resources go.quote (recording network) facade signed_contract (0, [])).1.1
data_resources-Stays_example =
    data_resources-Stays go.quote network facade signed_contract (0, []) tt

-- The two requests of the offering, the last one first, both at the facade.
two_requests :
    (data_resources go.quote (recording network) facade signed_contract (0, [])).1.1
    ≡ str "https://facade.local/resources/1" ∷ str "https://facade.local/resources/1" ∷ []
unfolding asks
two_requests = refl

-- A relative reference is joined to the host without a slash.
relative :
    localize go.quote network facade (str "resources/1")
    ≡ ok (str "https://" ++ str "facade.localresources/1")
unfolding asks
relative = refl

localize-authority_example :
    (authority (str "facade.localresources/1") ≡ str "facade.local") ↔ (ends_host b'r' ≡ true)
unfolding asks
localize-authority_example =
    localize-authority go.quote network facade (str "https://") (str "facade.local")
      (str "resources/1") (str "facade.localresources/1") b'r' (str "esources/1") [] refl
      (
        refl,
        (refl, (refl, (refl, (refl, (refl, (refl, (refl, (refl, (refl, (refl, (refl, tt))))))))))),
      )
      refl relative

encode_tests :
    (encode_participant (str "did:x") ≡ str "ZGlkOng=")
    × (encode_participant (str "~~~?") ≡ str "fn5-Pw==")
unfolding asks
encode_tests = (refl, refl)

ab-IsByte : All IsByte (str "a/")
unfolding asks
ab-IsByte = (omega arith, (omega arith, tt))

encode_participant-IsPadded_example : IsPadded (str "a/") (encode_participant (str "a/"))
encode_participant-IsPadded_example = encode_participant-IsPadded (str "a/") ab-IsByte

verify_url-injective_example : (str "a/" ≡ str "a/") × (str "a/" ≡ str "a/")
verify_url-injective_example =
    verify_url-injective go.quote network facade (str "a/") (str "a/") (str "a/") (str "a/")
      ab-IsByte ab-IsByte ab-IsByte ab-IsByte refl

-- A lookup that gives one resource for every contract, with the contract's id.
abbrev resources_of : Bytes → Slice DataResource
resources_of id = some (record address { id = id } ∷ [])

abbrev lookup : ContractLookup (Cache.Facade ℕ)
lookup = record {
  signed_contracts = λ provider consumer s. (ok only_signed, s);
  data_resources = λ ct s. (ok (resources_of ct.id), s);
}

abbrev Given : Bytes → Slice DataResource → Type 0
Given id rs = rs ≡ resources_of id

lookup-IsBehind : IsBehind network.now lookup 100 Given
lookup-IsBehind = record { gives = λ ct s rs h. sym (ok-injective h); keeps = λ ct s. refl }

abbrev no_entries : Dict CacheEntry
no_entries = []

no_entries-IsGenuine : IsGenuine network.now lookup 100 Given no_entries
unfolding get
no_entries-IsGenuine = record { distinct = tt; given = λ id e h. cc }

c1-named : signed_contract.id ≢ []
unfolding asks
c1-named = cc

-- Any number of calls for one contract.
abbrev both_enter : Calls network.now lookup 100
both_enter = record {
  facade = record { world = 0; items = no_entries };
  stage = λ i. entered signed_contract;
}

abbrev after_load_of : ℕ → Calls network.now lookup 100 → Calls network.now lookup 100
after_load_of i c = record {
  facade = (load network.now signed_contract.id c.facade).1;
  stage =
      moved_to network.now lookup 100 c.stage i
        (after_load signed_contract (load network.now signed_contract.id c.facade).0);
}

both_load : Reach network.now lookup 100 both_enter (after_load_of 1 (after_load_of 0 both_enter))
both_load =
    further (further at_start (call 0 (loads signed_contract c1-named)))
      (call 1 (loads signed_contract c1-named))

both_enter-IsOrderly : IsOrderly network.now lookup 100 Given both_enter
both_enter-IsOrderly = record { cache = no_entries-IsGenuine; calls = λ i. tt }

Reach-IsOrderly_example :
    IsOrderly network.now lookup 100 Given (after_load_of 1 (after_load_of 0 both_enter))
Reach-IsOrderly_example =
    Reach-IsOrderly network.now lookup 100 Given lookup-IsBehind both_load both_enter-IsOrderly

cached_after_store_example :
    cached_data_resources network.now lookup 100 signed_contract
      (record { world = 7; items = stored network.now 100 0 (str "c1") none no_entries })
    ≡ (let s : Cache.Facade ℕ = record {
      world = 8;
      items = stored network.now 100 0 (str "c1") none no_entries;
    } in
        if ltb (0 + 100) 7
        then remember network.now lookup 100 (str "c1") (lookup.data_resources signed_contract s)
        else (ok none, s))
cached_after_store_example =
    cached_after_store network.now lookup 100 signed_contract none no_entries 0 7 c1-named tt

-- An entry that is past its time, below the threshold.
abbrev old_items : Dict CacheEntry
old_items = (str "c0", record { resources = none; expires = 3 }) ∷ []

get-stored_example : get (stored network.now 100 7 (str "c1") none old_items) (str "c0") ≡ (
    if str "c1" == str "c0"
    then some (record { resources = none; expires = 7 + 100 })
    else if leb sweep_threshold 1
    then live 7 (get old_items (str "c0"))
    else get old_items (str "c0"))
unfolding get
get-stored_example = get-stored network.now 100 7 (str "c1") (str "c0") none old_items (refl, tt)
