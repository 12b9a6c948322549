-- ===== src/Items.antt =====
-- internal/resolver/items.go: one claim for each data item.
pub mod Origin
pub mod Laws
use consent_owner_resolver.Prelude.{
  ℕ, zero, suc, Bool, true, false, Option, none, some, List, [], ◌∷◌, ◌++◌, Bytes, str,
  if◌then◌else◌, Error, error, Result, ok, err,
}
use consent_owner_resolver.Prelude.Exec.{Exec, lift, ◌>>=◌}
use consent_owner_resolver.Json.{Json, array, elements}
use consent_owner_resolver.Go.Library.{Library}
use consent_owner_resolver.Go.Strconv.{itoa}
use consent_owner_resolver.Pointer.{get_json_pointer, join_pointer}
use consent_owner_resolver.Types.{Slice, Claim}

module _ (lib : Library) where
  unfoldable pub no_data : Bytes → Bytes → Error
  no_data items matcher = error (matcher ++ str ": no data at items pointer " ++ lib.quote items)

  unfoldable pub not_array : Bytes → Bytes → Error
  not_array items matcher =
      error (matcher ++ str ": value at " ++ lib.quote items ++ str " is not an array")

module _ (lib : Library) {S : Type 0} where
  -- The loop over the array; `i` is the index of the first item that is left.
  unfoldable pub claims_from :
      Bytes → (Json → Bytes → Exec S Claim) → ℕ → List Json → Exec S (List Claim)
  claims_from items build i [] = lift (ok [])
  claims_from items build i (item ∷ rest) = do
    claim ← build item (join_pointer items (itoa i))
    claims ← claims_from items build (suc i) rest
    lift (ok (claim ∷ claims))

  -- The test of the type assertion `root.([]interface{})`.
  unfoldable pub claims_of_array :
      Bytes → Bytes → (Json → Bytes → Exec S Claim) → Json → Exec S (Slice Claim)
  unfolding claims_from not_array
  claims_of_array items matcher build (array arr) = do
    claims ← claims_from items build 0 (elements arr)
    lift (ok (some claims))
  claims_of_array items matcher build _ = lift (err (not_array lib items matcher))

  unfoldable pub one_claim : Bytes → (Json → Bytes → Exec S Claim) → Json → Exec S (Slice Claim)
  one_claim items build root = do claim ← build root items; lift (ok (some (claim ∷ [])))

  unfoldable pub claims_of_root :
      Bytes → Bool → Bytes → (Json → Bytes → Exec S Claim) → Option Json → Exec S (Slice Claim)
  unfolding claims_of_array one_claim no_data
  claims_of_root items items_is_array matcher build none = lift (err (no_data lib items matcher))
  claims_of_root items items_is_array matcher build (some root) =
      if items_is_array
      then claims_of_array items matcher build root
      else one_claim items build root

  unfoldable pub claims_per_item :
      Json → Bytes → Bool → Bytes → (Json → Bytes → Exec S Claim) → Exec S (Slice Claim)
  unfolding claims_of_root
  claims_per_item decoded items items_is_array matcher build =
      claims_of_root items items_is_array matcher build (get_json_pointer decoded items)
