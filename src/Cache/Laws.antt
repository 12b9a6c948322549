-- ===== src/Cache/Laws.antt =====
-- Laws of DataResources in internal/resolver/contract_cache.go, against the lookup behind it.
use consent_owner_resolver.Prelude.{
  ℕ, ◌+◌, ◌≡◌, ◌≢◌, inl, inr, refl, sym, ap, ◌∙◌, Bool, true, false, Option, none, some, [], Bytes,
  ◌==◌, eq_iff, ltb, Bool-cases, if◌then◌else◌, Result, ok, err, panicked, some-injective,
  ok-injective,
}
use mathlib.Core.Path.{subst, subst₂}
use consent_owner_resolver.Prelude.Dict.{Dict, get}
use consent_owner_resolver.Types.{Slice}
use consent_owner_resolver.Contract.{Contract, DataResource}
use consent_owner_resolver.Lookup.{ContractLookup}
use consent_owner_resolver.Cache.{
  CacheEntry, Facade, is_past, fresh, load, stored, store, remember, on_miss, cached_data_resources,
}
use consent_owner_resolver.Cache.Entries.{Distinct, Distinct-stored, get-stored_here, stored-cases}

pub kept_value :
    (past : Bool) (a rs : Slice DataResource) → (if past then none else some a) ≡ some rs → a ≡ rs
kept_value true a rs h = cc
kept_value false a rs h = some-injective h

module _ {W : Type 0} (clock : W → ℕ × W) (inner : ContractLookup (Facade W)) (ttl : ℕ) where
  -- What the lookup may give for the id of a contract.
  module _ (Given : Bytes → Slice DataResource → Type 0) where
    -- Each id has one entry, and the entry is what the lookup may give for the id.
    pub record IsGenuine (items : Dict CacheEntry) : Type 0 where
      pub distinct : Distinct items
      pub given : (id : Bytes) (e : CacheEntry) → get items id ≡ some e → Given id e.resources

    -- The lookup gives what it may, and leaves the cache alone.
    pub record IsBehind : Type 0 where
      pub gives :
          (ct : Contract) (s : Facade W) (rs : Slice DataResource)
          → (inner.data_resources ct s).0 ≡ ok rs
          → Given ct.id rs
      pub keeps : (ct : Contract) (s : Facade W) → (inner.data_resources ct s).1.items ≡ s.items

    pub stored-IsGenuine :
        (now : ℕ) (id : Bytes) (rs : Slice DataResource) (items : Dict CacheEntry)
        → Given id rs
        → IsGenuine items
        → IsGenuine (stored clock ttl now id rs items)
    stored-IsGenuine now id rs items given h = record {
      distinct = Distinct-stored clock ttl now id rs items h.distinct;
      given = λ j e found. elim (stored-cases clock ttl now id j rs items e h.distinct found) [
        | inl (same, resources, expires) ↦ subst₂ Given same resources given
        | inr before ↦ h.given j e before
      ];
    }

    -- A call leaves a genuine cache, and what it returns is what the lookup may give.
    abbrev pub Genuinely : Contract → Result (Slice DataResource) × Facade W → Type 0
    Genuinely ct r =
        IsGenuine r.1.items × ((rs : Slice DataResource) → r.0 ≡ ok rs → Given ct.id rs)

    remember-Genuinely :
        (ct : Contract) (r : Result (Slice DataResource) × Facade W)
        → Genuinely ct r
        → Genuinely ct (remember clock inner ttl ct.id r)
    unfolding remember store
    remember-Genuinely ct (ok rs, s) h =
        (stored-IsGenuine (clock s.world).0 ct.id rs s.items (h.1 rs refl) h.0, h.1)
    remember-Genuinely ct (err e, s) h = h
    remember-Genuinely ct (panicked, s) h = h

    module _ (behind : IsBehind) where
      inner-Genuinely :
          (ct : Contract) (s : Facade W)
          → IsGenuine s.items
          → Genuinely ct (inner.data_resources ct s)
      inner-Genuinely ct s h =
          (subst IsGenuine (sym (behind.keeps ct s)) h, λ rs given. behind.gives ct s rs given)

      on_miss-Genuinely :
          (ct : Contract) (o : Option (Slice DataResource)) (s : Facade W)
          → IsGenuine s.items
          → ((rs : Slice DataResource) → o ≡ some rs → Given ct.id rs)
          → Genuinely ct (on_miss clock inner ttl ct (o, s))
      unfolding on_miss
      on_miss-Genuinely ct (some cached) s h hit =
          (h, λ rs same. subst (Given ct.id) (ok-injective same) (hit cached refl))
      on_miss-Genuinely ct none s h hit = remember-Genuinely ct _ (inner-Genuinely ct s h)

      fresh-Genuinely :
          (ct : Contract) (o : Option CacheEntry) (s : Facade W)
          → IsGenuine s.items
          → ((e : CacheEntry) → o ≡ some e → Given ct.id e.resources)
          → Genuinely ct (on_miss clock inner ttl ct (fresh clock o s))
      unfolding fresh
      fresh-Genuinely ct none s h hit = on_miss-Genuinely ct none s h (λ rs same. cc)
      fresh-Genuinely ct (some e) s h hit = on_miss-Genuinely ct _ _ h (λ rs same.
          subst (Given ct.id) (kept_value (is_past (clock s.world).0 e) e.resources rs same)
            (hit e refl))

      -- Both: the cache that the call leaves, and the resources that it gives.
      cached_data_resources-Genuinely :
          (ct : Contract) (s : Facade W)
          → IsGenuine s.items
          → Genuinely ct (cached_data_resources clock inner ttl ct s)
      unfolding cached_data_resources load
      cached_data_resources-Genuinely ct s h = elim (Bool-cases (ct.id == [])) [
        | inl unkeyed ↦ rw (unkeyed, cached_data_resources) (inner-Genuinely ct s h)
        | inr keyed ↦
            rw (keyed, cached_data_resources)
              (fresh-Genuinely ct (get s.items ct.id) s h (λ e found. h.given ct.id e found))
      ]

      -- A call keeps the cache genuine, also where it ends in an error.
      pub cached_data_resources-IsGenuine :
          (ct : Contract) (s : Facade W)
          → IsGenuine s.items
          → IsGenuine (cached_data_resources clock inner ttl ct s).1.items
      cached_data_resources-IsGenuine ct s h = (cached_data_resources-Genuinely ct s h).0

      -- From a genuine cache, the resources that a call gives for a contract, from the cache or not,
      -- are what the lookup may give for that contract's id.
      pub cached_data_resources-Given :
          (ct : Contract) (s : Facade W) (rs : Slice DataResource)
          → IsGenuine s.items
          → (cached_data_resources clock inner ttl ct s).0 ≡ ok rs
          → Given ct.id rs
      cached_data_resources-Given ct s rs h given =
          (cached_data_resources-Genuinely ct s h).1 rs given

  after_miss :
      (ct : Contract) (past : Bool) (rs : Slice DataResource) (s : Facade W)
      → on_miss clock inner ttl ct ((if past then none else some rs), s)
        ≡ (if past then remember clock inner ttl ct.id (inner.data_resources ct s) else (ok rs, s))
  unfolding on_miss
  after_miss ct true rs s = refl
  after_miss ct false rs s = refl

  after_found :
      (ct : Contract) (e : CacheEntry) (o : Option CacheEntry) (s : Facade W)
      → o ≡ some e
      → on_miss clock inner ttl ct (fresh clock o s) ≡ (
          let t : Facade W = record s { world = (clock s.world).1 } in
          if ltb e.expires (clock s.world).0
          then remember clock inner ttl ct.id (inner.data_resources ct t)
          else (ok e.resources, t))
  unfolding fresh is_past
  after_found ct e o s found =
      ap (λ x. on_miss clock inner ttl ct (fresh clock x s)) found
      ∙ after_miss ct (ltb e.expires (clock s.world).0) e.resources
          (record s { world = (clock s.world).1 })

  -- A contract with an id, asked for after a store at the time `now` in a map with one entry for each
  -- key: until its time to live is over
  -- it is answered from the cache, the lookup is not called and only the clock is read; from then on
  -- the lookup is called again, and what it gives is stored.
  pub cached_after_store :
      (ct : Contract) (rs : Slice DataResource) (items : Dict CacheEntry) (now : ℕ) (w : W)
      → ct.id ≢ []
      → Distinct items
      → cached_data_resources clock inner ttl ct
          (record { world = w; items = stored clock ttl now ct.id rs items })
        ≡ (let s : Facade W = record {
          world = (clock w).1;
          items = stored clock ttl now ct.id rs items;
        } in
            if ltb (now + ttl) (clock w).0
            then remember clock inner ttl ct.id (inner.data_resources ct s)
            else (ok rs, s))
  unfolding cached_data_resources load
  cached_after_store ct rs items now w keyed distinct = elim (Bool-cases (ct.id == [])) [
    | inl unkeyed ↦ absurd (keyed ((eq_iff ct.id []).0 unkeyed))
    | inr named ↦
        rw (named, cached_data_resources)
          (after_found ct (record { resources = rs; expires = now + ttl }) _ _
            (get-stored_here clock ttl now ct.id rs items distinct))
  ]
