-- ===== src/Matcher/Located.antt =====
-- Claims of the json and the contract matcher, against the decoded body.
use consent_owner_resolver.Prelude.{
  Bool, Option, some, List, [], ◌∷◌, ◌≡◌, sym, ap, ◌∙◌, Bytes, All, ok, ok-injective,
  some-injective,
}
use mathlib.Core.Path.{subst}
use consent_owner_resolver.Json.{Json}
use consent_owner_resolver.Go.Library.{Library}
use consent_owner_resolver.Types.{Claim, Body, ResolveRequest}
use consent_owner_resolver.Pointer.{get_json_pointer, pointer_string}
use consent_owner_resolver.Payload.{decode_json_body}
use consent_owner_resolver.Items.Origin.{Fits, Located, Origin, Origin-Located}
use consent_owner_resolver.Matcher.{json, contract, claims}
use consent_owner_resolver.Matcher.JsonMatcher.{JsonMatcher}
use consent_owner_resolver.Matcher.ContractMatcher.{ContractMatcher}
use consent_owner_resolver.Matcher.Owners.{OwnerAt}
use consent_owner_resolver.Matcher.Justified.{fresh, FromItems, claims-Justified}

-- The selector leads to an item of the body whose owner, at the configured pointer, is the claim's.
pub record IsOwnedAt (decoded : Json) (owner_ptr : Bytes) (c : Claim) : Type 0 where
  pub item : Json
  pub found : get_json_pointer decoded c.selector.value ≡ some item
  pub owner : pointer_string item owner_ptr ≡ some c.owner_id

Located-IsOwnedAt :
    (P : Json → Bytes → Claim → Type 0) (decoded : Json) (owner_ptr : Bytes)
    → ((item : Json) (selector : Bytes) (c : Claim)
        → P item selector c
        → OwnerAt owner_ptr item selector c)
    → (cs : List Claim) → All (Located P decoded) cs
    → All (IsOwnedAt decoded owner_ptr) cs
Located-IsOwnedAt P decoded owner_ptr owned [] h = tt
Located-IsOwnedAt P decoded owner_ptr owned (c ∷ cs) ((item, selector, p, found), rest) = (
  record {
    item = item;
    found = ap (get_json_pointer decoded) (owned item selector c p).place ∙ found;
    owner = (owned item selector c p).owner;
  },
  Located-IsOwnedAt P decoded owner_ptr owned cs rest,
)

module _ (lib : Library) where
  FromItems-IsOwnedAt :
      (P : Json → Bytes → Claim → Type 0) (items : Bytes) (is_array : Bool) (b : Option Body)
      (owner_ptr : Bytes) (decoded : Json) (cs : List Claim)
      → ((item : Json) (selector : Bytes) (c : Claim)
          → P item selector c
          → OwnerAt owner_ptr item selector c)
      → decode_json_body lib b ≡ ok decoded
      → Fits decoded items
      → FromItems lib P items is_array b (some cs)
      → All (IsOwnedAt decoded owner_ptr) cs
  FromItems-IsOwnedAt P items is_array b owner_ptr decoded cs owned body fits h =
      subst (All (IsOwnedAt decoded owner_ptr)) (some-injective (sym h.returned)) (
        Located-IsOwnedAt P decoded owner_ptr owned h.listed (
          Origin-Located P decoded items is_array h.listed fits (
            subst (λ d. Origin P d items is_array h.listed) (ok-injective (sym h.body ∙ body))
              h.origin)))

  module _ {S : Type 0} where
    -- For a json matcher, the selector of every claim leads, in the decoded body, to an item whose
    -- text at the owner pointer is the owner of the claim.
    pub json_claims-IsOwnedAt :
        (m : JsonMatcher) (req : ResolveRequest) (s : S) (decoded : Json) (cs : List Claim)
        → decode_json_body lib req.body ≡ ok decoded
        → Fits decoded m.items
        → (claims lib (json m) req (fresh req.body s)).0 ≡ ok (some cs)
        → All (IsOwnedAt decoded m.owner_ptr) cs
    json_claims-IsOwnedAt m req s decoded cs body fits h =
        FromItems-IsOwnedAt _ m.items m.items_is_array req.body m.owner_ptr decoded cs
          (λ item selector c at. at) body fits (claims-Justified lib (json m) req s (some cs) h)

    -- For a contract matcher, the selector of every claim leads, in the decoded body, to an item
    -- whose text at the owner pointer is the owner of the claim.
    pub contract_claims-IsOwnedAt :
        (m : ContractMatcher S) (req : ResolveRequest) (s : S) (decoded : Json) (cs : List Claim)
        → decode_json_body lib req.body ≡ ok decoded
        → Fits decoded m.items
        → (claims lib (contract m) req (fresh req.body s)).0 ≡ ok (some cs)
        → All (IsOwnedAt decoded m.owner_ptr) cs
    contract_claims-IsOwnedAt m req s decoded cs body fits h =
        FromItems-IsOwnedAt _ m.items m.items_is_array req.body m.owner_ptr decoded cs
          (λ item selector c at. at.0) body fits
          (claims-Justified lib (contract m) req s (some cs) h).items
