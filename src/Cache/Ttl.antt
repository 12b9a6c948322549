-- ===== src/Cache/Ttl.antt =====
-- The time to live of the cache in internal/resolver/contract_cache.go, by resourceCacheTTL in
-- internal/resolver/config.go.
use consent_owner_resolver.Prelude.{ℕ, suc, ◌-◌, ◌*◌, ◌<◌, ◌^◌, ◌≡◌, refl, arith, ltb, true}
use consent_owner_resolver.Prelude.Int.{
  ℤ, pos, negsuc, milliseconds-pos, milliseconds-negsuc, milliseconds-below,
}
use consent_owner_resolver.Lookup.{ContractLookup}
use consent_owner_resolver.Cache.{Facade, caching_lookup, new_caching_lookup, resource_cache_ttl}

module _ {W : Type 0} (clock : W → ℕ × W) (inner : ContractLookup (Facade W)) where
  -- The lookup of a configured time.
  abbrev configured : ℤ → ContractLookup (Facade W)
  configured ms = new_caching_lookup clock inner (resource_cache_ttl ms)

  lives : (n : ℕ) → 0 < n → new_caching_lookup clock inner (pos n) ≡ caching_lookup clock inner n
  unfolding new_caching_lookup
  lives n h = rw (ltb_true n h) refl
    where
      ltb_true : (n : ℕ) → 0 < n → ltb 0 n ≡ true
      ltb_true n h = ground arith

  -- For n + 1 milliseconds, with (n + 1) * 10 ^ 6 below 2 ^ 63: entries live that long if n + 1 is
  -- configured, there is no cache if -(n + 1) is, and entries live for 30 seconds if 0 is; but they
  -- live for n + 1 milliseconds as well if n + 1 - 2 ^ 58 is configured, which is negative.
  pub new_caching_lookup-ttl :
      (n : ℕ)
      → suc n * 1000000 < 2 ^ 63
      → (new_caching_lookup clock inner (resource_cache_ttl (pos (suc n)))
          ≡ caching_lookup clock inner (suc n * 1000000))
        × (new_caching_lookup clock inner (resource_cache_ttl (negsuc n)) ≡ inner)
        × (new_caching_lookup clock inner (resource_cache_ttl (pos 0))
            ≡ caching_lookup clock inner 30000000000)
        × (new_caching_lookup clock inner (resource_cache_ttl (negsuc (2 ^ 58 - suc n - 1)))
            ≡ caching_lookup clock inner (suc n * 1000000))
  unfolding resource_cache_ttl new_caching_lookup
  new_caching_lookup-ttl n fits = (
    rw (milliseconds-pos (suc n) fits) (lives (suc n * 1000000) (omega arith)),
    rw (milliseconds-negsuc n (omega (arith, fits))) refl,
    rw (milliseconds-pos 30000 (omega arith)) refl,
    rw (milliseconds-below (suc n) (omega arith) fits) (lives (suc n * 1000000) (omega arith)),
  )
