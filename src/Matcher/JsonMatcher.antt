-- ===== src/Matcher/JsonMatcher.antt =====
-- internal/resolver/matcher.go: the json matcher.
use consent_owner_resolver.Prelude
use consent_owner_resolver.Prelude.{
  Bool, Option, none, some, [], ◌++◌, Bytes, str, ◌==◌, if◌then◌else◌, error, Error, Result, ok,
  err,
}
use consent_owner_resolver.Prelude.Exec.{Exec, lift, ◌>>=◌}
use consent_owner_resolver.Json.{Json, null}
use consent_owner_resolver.Go.Library.{Library}
use consent_owner_resolver.Pointer.{pointer_string}
use consent_owner_resolver.Types.{Slice, Claim, selector_json_pointer}
use consent_owner_resolver.Payload.{json}
use consent_owner_resolver.Items.{claims_per_item}
use consent_owner_resolver.RawConfig.{RawMatcher}
use consent_owner_resolver.Matcher.Frame.{Frame, on_payload}

pub record JsonMatcher : Type 0 where
  pub items : Bytes
  pub items_is_array : Bool
  pub owner_ptr : Bytes
  pub resource_ptr : Bytes
  pub resource : Bytes
  pub participant : Bytes

abbrev pub json_matcher_name : Bytes
json_matcher_name = str "json matcher"

unfoldable pub new_json_matcher : RawMatcher → Result JsonMatcher
new_json_matcher m =
    if m.owner == []
    then err (error (json_matcher_name ++ str ": 'owner' pointer is required"))
    else ok (record {
      items = m.items;
      items_is_array = m.items_is_array;
      owner_ptr = m.owner;
      resource_ptr = m.resource_pointer;
      resource = m.resource;
      participant = m.participant;
    })

-- `pointerString`, with the error for a text that is absent or empty.
unfoldable pub required : Error → Option Bytes → Result Bytes
required e none = err e
required e (some s) = if s == [] then err e else ok s

module _ (lib : Library) (m : JsonMatcher) where
  unfoldable pub absent : Bytes → Bytes → Error
  absent what ptr = error (json_matcher_name ++ str ": no " ++ what ++ str " at " ++ lib.quote ptr)

  -- The claim's resource: the text at `resource_ptr`, if the matcher has such a pointer.
  unfoldable pub item_resource : Json → Result Bytes
  unfolding absent
  item_resource item =
      if m.resource_ptr == []
      then ok m.resource
      else required (absent (str "resource") m.resource_ptr) (pointer_string item m.resource_ptr)

  -- `claimForItem`.
  unfoldable pub json_claim_for_item : Json → Bytes → Result Claim
  unfolding item_resource
  json_claim_for_item item selector =
      Prelude.◌>>=◌ (required (absent (str "owner") m.owner_ptr) (pointer_string item m.owner_ptr))
        λ owner. Prelude.◌>>=◌ (item_resource item) λ resource. ok (record {
          selector = record { type = selector_json_pointer; value = selector };
          owner_id = owner;
          participant = m.participant;
          data_resource = resource;
        })

  unfoldable pub no_json : Error
  no_json = error (json_matcher_name ++ str ": a JSON body is required but none was decoded")

  unfoldable pub items_of : {S : Type 0} → Json → Exec (Frame S) (Slice Claim)
  unfolding no_json
  items_of null = lift (err no_json)
  items_of decoded =
      claims_per_item lib decoded m.items m.items_is_array json_matcher_name
        (λ item selector. lift (json_claim_for_item item selector))

  -- `Claims` of the json matcher.
  unfoldable pub json_claims : {S : Type 0} → Exec (Frame S) (Slice Claim)
  unfolding items_of
  json_claims = do decoded ← on_payload (json lib); items_of decoded
