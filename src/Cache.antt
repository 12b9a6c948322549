-- ===== src/Cache.antt =====
-- internal/resolver/contract_cache.go: the cache of data resources in front of the client.
-- `Facade` is the state behind the interface `contractLookup`: the outside world and the cache.
pub mod Entries
pub mod Laws
pub mod Threads
pub mod Size
pub mod Ttl
use consent_owner_resolver.Prelude.{
  ℕ, ◌+◌, Bool, true, false, Option, none, some, List, [], ◌∷◌, Bytes, ◌==◌, ltb, leb, length,
  if◌then◌else◌, Result, ok, err, panicked,
}
use consent_owner_resolver.Prelude.Exec.{Exec}
use consent_owner_resolver.Prelude.Dict.{Dict, get, put}
use consent_owner_resolver.Prelude.Int.{ℤ, pos, negsuc, is_positive, is_zero, milliseconds}
use consent_owner_resolver.Types.{Slice}
use consent_owner_resolver.Contract.{Contract, DataResource}
use consent_owner_resolver.Contract.Client.{Network, Client, signed_contracts, data_resources}
use consent_owner_resolver.Lookup.{ContractLookup}

abbrev pub sweep_threshold : ℕ
sweep_threshold = 128

abbrev pub default_resource_cache_ttl_ms : ℤ
default_resource_cache_ttl_ms = pos 30000

pub record CacheEntry : Type 0 where
  pub resources : Slice DataResource
  pub expires : ℕ

pub record Facade (W : Type 0) : Type 0 where
  pub world : W
  pub items : Dict CacheEntry

-- `now.After(entry.expires)`
unfoldable pub is_past : ℕ → CacheEntry → Bool
is_past now entry = ltb entry.expires now

unfoldable pub sweep_expired : ℕ → Dict CacheEntry → Dict CacheEntry
unfolding is_past
sweep_expired now [] = []
sweep_expired now ((id, entry) ∷ items) =
    let rest = sweep_expired now items in if is_past now entry then rest else (id, entry) ∷ rest

-- `resourceCacheTTL`, in nanoseconds.
unfoldable pub resource_cache_ttl : ℤ → ℤ
resource_cache_ttl ms = milliseconds (if is_zero ms then default_resource_cache_ttl_ms else ms)

module _ {W : Type 0} where
  unfoldable pub on_world : {A : Type 0} → Exec W A → Exec (Facade W) A
  on_world m s = let (r, w) = m s.world in (r, record s { world = w })

  -- `*contract.Client` as a `contractLookup`; it does not touch the cache.
  unfoldable pub client_lookup : (Bytes → Bytes) → Network W → Client → ContractLookup (Facade W)
  unfolding on_world
  client_lookup quote net c = record {
    signed_contracts =
        λ provider consumer. on_world (signed_contracts quote net c provider consumer);
    data_resources = λ ct. on_world (data_resources quote net c ct);
  }

  module _ (clock : W → ℕ × W) where
    -- The clock is read only if there is an entry.
    unfoldable pub fresh : Option CacheEntry → Facade W → Option (Slice DataResource) × Facade W
    unfolding is_past
    fresh none s = (none, s)
    fresh (some entry) s =
        let (now, w) = clock s.world in
        (if is_past now entry then none else some entry.resources, record s { world = w })

    unfoldable pub load : Bytes → Facade W → Option (Slice DataResource) × Facade W
    unfolding fresh
    load id s = fresh (get s.items id) s

    -- The entry of `id` at the time `now`, behind a sweep of a map that has grown.
    unfoldable pub stored : ℕ → ℕ → Bytes → Slice DataResource → Dict CacheEntry → Dict CacheEntry
    stored ttl now id resources items =
        let kept : Dict CacheEntry =
          if leb sweep_threshold (length items) then sweep_expired now items else items in
        put kept id (record { resources = resources; expires = now + ttl })

    unfoldable pub store : ℕ → Bytes → Slice DataResource → Facade W → Facade W
    unfolding stored
    store ttl id resources s =
        let (now, w) = clock s.world in
        record { world = w; items = stored ttl now id resources s.items }

    module _ (inner : ContractLookup (Facade W)) (ttl : ℕ) where
      -- Errors are not stored.
      unfoldable pub remember :
          Bytes → Result (Slice DataResource) × Facade W → Result (Slice DataResource) × Facade W
      remember id (ok resources, s) = (ok resources, store ttl id resources s)
      remember id (err e, s) = (err e, s)
      remember id (panicked, s) = (panicked, s)

      unfoldable pub on_miss :
          Contract → Option (Slice DataResource) × Facade W → Result (Slice DataResource) × Facade W
      unfolding remember
      on_miss ct (some cached, s) = (ok cached, s)
      on_miss ct (none, s) = remember ct.id (inner.data_resources ct s)

      -- `DataResources` of `cachingLookup`.
      unfoldable pub cached_data_resources : Contract → Exec (Facade W) (Slice DataResource)
      unfolding on_miss
      cached_data_resources ct s =
          if ct.id == [] then inner.data_resources ct s else on_miss ct (load ct.id s)

      unfoldable pub caching_lookup : ContractLookup (Facade W)
      caching_lookup = record {
        signed_contracts = inner.signed_contracts;
        data_resources = cached_data_resources;
      }

    -- `newCachingLookup`: a ttl of zero or less leaves the lookup as it is.
    unfoldable pub new_caching_lookup : ContractLookup (Facade W) → ℤ → ContractLookup (Facade W)
    unfolding caching_lookup
    new_caching_lookup inner (negsuc n) = inner
    new_caching_lookup inner (pos ttl) = if ltb 0 ttl then caching_lookup inner ttl else inner
