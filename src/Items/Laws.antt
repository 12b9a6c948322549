-- ===== src/Items/Laws.antt =====
-- Laws of claimsPerItem in internal/resolver/items.go.
use consent_owner_resolver.Prelude.{
  ℕ, suc, ◌≡◌, ◌↔◌, refl, sym, Bool, true, false, Option, none, some, List, [], ◌∷◌, Bytes, ok, inl,
  inr, ok-injective, some-injective, All,
}
use mathlib.Core.Path.{subst}
use consent_owner_resolver.Prelude.Exec.{Exec, >>=-eq-ok}
use consent_owner_resolver.Json.{Json, array, elements, nil}
use consent_owner_resolver.Go.Library.{Library}
use consent_owner_resolver.Go.Strconv.{itoa}
use consent_owner_resolver.Pointer.{get_json_pointer, join_pointer}
use consent_owner_resolver.Types.{Slice, Claim}
use consent_owner_resolver.Items.{
  claims_from, claims_of_array, one_claim, claims_of_root, claims_per_item,
}
use consent_owner_resolver.Items.Origin.{
  Fits, Paired, Origin, Located, Builds, Origin-Located, Origin-empty,
}

module _ (lib : Library) {S : Type 0} (P : Json → Bytes → Claim → Type 0)
    (build : Json → Bytes → Exec S Claim) (builds : Builds P build) where
  claims_from-Paired :
      (items : Bytes) (i : ℕ) (rest : List Json) (s : S) (cs : List Claim)
      → (claims_from lib items build i rest s).0 ≡ ok cs
      → Paired P items i rest cs
  unfolding claims_from
  claims_from-Paired items i [] s [] h = tt
  claims_from-Paired items i [] s (c ∷ cs) h = cc
  claims_from-Paired items i (item ∷ rest) s cs h =
      let (c, built, h') = >>=-eq-ok (build item (join_pointer items (itoa i))) _ s h in
      let (later, walked, same) = >>=-eq-ok (claims_from lib items build (suc i) rest) _ _ h' in
      subst (Paired P items i (item ∷ rest)) (ok-injective same) (
        builds item (join_pointer items (itoa i)) s c built,
        claims_from-Paired items (suc i) rest _ later walked,
      )

  claims_of_array-Origin :
      (decoded : Json) (items matcher : Bytes) (root : Json) (s : S) (out : Slice Claim)
      → get_json_pointer decoded items ≡ some root
      → (claims_of_array lib items matcher build root s).0 ≡ ok out
      → (cs : List Claim) × (out ≡ some cs) × Origin P decoded items true cs
  unfolding claims_of_array
  claims_of_array-Origin decoded items matcher (array es) s out found h =
      let (cs, walked, same) = >>=-eq-ok (claims_from lib items build 0 (elements es)) _ s h in
      (
        cs,
        sym (ok-injective same),
        inr (refl, es, found, claims_from-Paired items 0 (elements es) s cs walked),
      )
  claims_of_array-Origin decoded items matcher _ s out found h = cc

  one_claim-Origin :
      (decoded : Json) (items : Bytes) (root : Json) (s : S) (out : Slice Claim)
      → get_json_pointer decoded items ≡ some root
      → (one_claim lib items build root s).0 ≡ ok out
      → (cs : List Claim) × (out ≡ some cs) × Origin P decoded items false cs
  unfolding one_claim
  one_claim-Origin decoded items root s out found h =
      let (c, built, same) = >>=-eq-ok (build root items) _ s h in
      (
        c ∷ [],
        sym (ok-injective same),
        inl (refl, root, c, found, refl, builds root items s c built),
      )

  claims_of_root-Origin :
      (decoded : Json) (items : Bytes) (is_array : Bool) (matcher : Bytes) (o : Option Json) (s : S)
      (out : Slice Claim)
      → get_json_pointer decoded items ≡ o
      → (claims_of_root lib items is_array matcher build o s).0 ≡ ok out
      → (cs : List Claim) × (out ≡ some cs) × Origin P decoded items is_array cs
  unfolding claims_of_root
  claims_of_root-Origin decoded items is_array matcher none s out found h = cc
  claims_of_root-Origin decoded items true matcher (some root) s out found h =
      claims_of_array-Origin decoded items matcher root s out found h
  claims_of_root-Origin decoded items false matcher (some root) s out found h =
      one_claim-Origin decoded items root s out found h

  -- Claims that are returned are a slice that is not nil, and each comes from an item: from the value
  -- at `items`, or, for an array, one from each element in order, with the element's own selector.
  pub claims_per_item-Origin :
      (decoded : Json) (items : Bytes) (is_array : Bool) (matcher : Bytes) (s : S)
      (out : Slice Claim)
      → (claims_per_item lib decoded items is_array matcher build s).0 ≡ ok out
      → (cs : List Claim) × (out ≡ some cs) × Origin P decoded items is_array cs
  unfolding claims_per_item
  claims_per_item-Origin decoded items is_array matcher s out h =
      claims_of_root-Origin decoded items is_array matcher (get_json_pointer decoded items) s out
        refl h

  -- For a builder, and whatever it guarantees of a claim against the item and the selector that it
  -- builds it from: every claim that is returned has been built from an item and a selector that leads
  -- to that very item in the payload, as long as the indices of the collection are integers of Go.
  pub claims_per_item-Located :
      (decoded : Json) (items : Bytes) (is_array : Bool) (matcher : Bytes) (s : S) (cs : List Claim)
      → Fits decoded items
      → (claims_per_item lib decoded items is_array matcher build s).0 ≡ ok (some cs)
      → All (Located P decoded) cs
  claims_per_item-Located decoded items is_array matcher s cs fits h =
      let (cs', same, origin) =
        claims_per_item-Origin decoded items is_array matcher s (some cs) h in
      subst (All (Located P decoded)) (sym (some-injective same))
        (Origin-Located P decoded items is_array cs' fits origin)

  -- No claims are returned exactly when a collection is asked for and the payload's is empty.
  pub claims_per_item-empty :
      (decoded : Json) (items : Bytes) (is_array : Bool) (matcher : Bytes) (s : S)
      → ((claims_per_item lib decoded items is_array matcher build s).0 ≡ ok (some []))
        ↔ ((is_array ≡ true) × (get_json_pointer decoded items ≡ some (array nil)))
  unfolding claims_per_item claims_of_root claims_of_array claims_from
  claims_per_item-empty decoded items is_array matcher s = (
    λ h.
        let (cs, same, origin) =
          claims_per_item-Origin decoded items is_array matcher s (some []) h in
        Origin-empty P decoded items is_array
          (subst (Origin P decoded items is_array) (sym (some-injective same)) origin),
    λ h. rw (h.0, h.1),
  )
