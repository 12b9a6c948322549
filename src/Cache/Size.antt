-- ===== src/Cache/Size.antt =====
-- How far the map of internal/resolver/contract_cache.go grows.
use consent_owner_resolver.Prelude.{
  ℕ, suc, ◌≤◌, ◌≡◌, inl, inr, ◌⊎◌, false, [], ◌∷◌, All, arith, Bytes, ◌==◌, leb, length, Bool-cases,
}
use consent_owner_resolver.Prelude.Dict.{Dict, put}
use consent_owner_resolver.Types.{Slice}
use consent_owner_resolver.Contract.{DataResource}
use consent_owner_resolver.Cache.{
  CacheEntry, Facade, is_past, sweep_expired, stored, store, sweep_threshold,
}

abbrev pub AllLive : ℕ → Dict CacheEntry → Type 0
AllLive now items = All (λ e. is_past now e.1 ≡ false) items

sweep_expired-AllLive : (now : ℕ) (items : Dict CacheEntry) → AllLive now (sweep_expired now items)
unfolding sweep_expired
sweep_expired-AllLive now [] = tt
sweep_expired-AllLive now ((id, entry) ∷ items) = elim (Bool-cases (is_past now entry)) [
  | inl past ↦ rw past (sweep_expired-AllLive now items)
  | inr fresh ↦ rw fresh (fresh, sweep_expired-AllLive now items)
]

put-AllLive :
    (now : ℕ) (items : Dict CacheEntry) (id : Bytes) (entry : CacheEntry)
    → is_past now entry ≡ false
    → AllLive now items
    → AllLive now (put items id entry)
unfolding put
put-AllLive now [] id entry new h = (new, tt)
put-AllLive now ((k, e) ∷ items) id entry new h = elim (Bool-cases (k == id)) [
  | inl same ↦ rw same (new, h.1)
  | inr other ↦ rw other (h.0, put-AllLive now items id entry new h.1)
]

length-put :
    (items : Dict CacheEntry) (id : Bytes) (entry : CacheEntry)
    → length (put items id entry) ≤ suc (length items)
unfolding put
length-put [] id entry = omega arith
length-put ((k, e) ∷ items) id entry = ground (arith, length-put items id entry)

within_threshold :
    (items : Dict CacheEntry) (id : Bytes) (entry : CacheEntry)
    → leb sweep_threshold (length items) ≡ false
    → length (put items id entry) ≤ sweep_threshold
within_threshold items id entry small = ground (arith, length-put items id entry)

module _ {W : Type 0} (clock : W → ℕ × W) where
  -- Behind a store the map has at most as many entries as the threshold of the sweep, or none of its
  -- entries is past its time: it grows beyond the threshold by live entries only.
  pub store-bounded :
      (ttl : ℕ) (id : Bytes) (resources : Slice DataResource) (s : Facade W)
      → let items = (store clock ttl id resources s).items in
        (length items ≤ sweep_threshold) ⊎ AllLive (clock s.world).0 items
  unfolding store stored is_past
  store-bounded ttl id resources s =
      let now = (clock s.world).0 in
      elim (Bool-cases (leb sweep_threshold (length s.items))) [
        | inl grown ↦
            inr
              (rw grown (put-AllLive now _ id _ (ground arith) (sweep_expired-AllLive now s.items)))
        | inr small ↦ inl (rw small (within_threshold s.items id _ small))
      ]
