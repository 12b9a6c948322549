-- ===== src/Cache/Threads.antt =====
-- Calls of DataResources in internal/resolver/contract_cache.go that interleave, as those of
-- concurrent requests do: a load and a store hold the mutex, and are one step each; the call of the
-- lookup in between holds none, and leaves the map alone.
use consent_owner_resolver.Prelude.{
  ℕ, ◌≡◌, ◌≢◌, inl, inr, refl, sym, Option, none, some, [], Bytes, eqb, if◌then◌else◌, Bool-cases,
  Result, ok, err, panicked,
}
use mathlib.Core.Path.{subst}
use consent_owner_resolver.Types.{Slice}
use consent_owner_resolver.Contract.{Contract, DataResource}
use consent_owner_resolver.Lookup.{ContractLookup}
use consent_owner_resolver.Prelude.Dict.{get}
use consent_owner_resolver.Cache.{CacheEntry, Facade, is_past, fresh, load, store}
use consent_owner_resolver.Cache.Laws.{IsGenuine, IsBehind, kept_value, stored-IsGenuine}

-- Where a call stands: before the load, behind a miss, before the store, or behind its return.
pub data Stage : Type 0 where
  entered : Contract → Stage
  missed : Contract → Stage
  storing : Contract → Slice DataResource → Stage
  left : Contract → Result (Slice DataResource) → Stage

abbrev pub after_load : Contract → Option (Slice DataResource) → Stage
after_load ct none = missed ct
after_load ct (some cached) = left ct (ok cached)

abbrev pub after_lookup : Contract → Result (Slice DataResource) → Stage
after_lookup ct (ok resources) = storing ct resources
after_lookup ct (err e) = left ct (err e)
after_lookup ct panicked = left ct panicked

module _ {W : Type 0} (clock : W → ℕ × W) (inner : ContractLookup (Facade W)) (ttl : ℕ) where
  -- A step of one call.
  pub data Move (s : Facade W) : Stage → Facade W → Stage → Type 0 where
    passes :
        (ct : Contract)
        → ct.id ≡ []
        → Move s (entered ct) (inner.data_resources ct s).1 (left ct (inner.data_resources ct s).0)
    loads :
        (ct : Contract)
        → ct.id ≢ []
        → Move s (entered ct) (load clock ct.id s).1 (after_load ct (load clock ct.id s).0)
    asks :
        (ct : Contract)
        → Move s
            (missed ct)
            (inner.data_resources ct s).1
            (after_lookup ct (inner.data_resources ct s).0)
    stores :
        (ct : Contract) (resources : Slice DataResource)
        → Move s (storing ct resources) (store clock ttl ct.id resources s) (left ct (ok resources))

  -- Calls that are numbered, over one cache.
  pub record Calls : Type 0 where
    pub facade : Facade W
    pub stage : ℕ → Stage

  abbrev pub moved_to : (ℕ → Stage) → ℕ → Stage → ℕ → Stage
  moved_to stages i stage j = if eqb j i then stage else stages j

  pub data Step (c : Calls) : Calls → Type 0 where
    call :
        (i : ℕ) {t : Facade W} {stage : Stage}
        → Move c.facade (c.stage i) t stage
        → Step c (record { facade = t; stage = moved_to c.stage i stage })

  pub data Reach (c : Calls) : Calls → Type 0 where
    at_start : Reach c c
    further : {d e : Calls} → Reach c d → Step d e → Reach c e

  module _ (Given : Bytes → Slice DataResource → Type 0) where
    -- What a call holds is what the lookup may give for its contract.
    abbrev pub Holds : Stage → Type 0
    Holds (entered ct) = Unit
    Holds (missed ct) = Unit
    Holds (storing ct resources) = Given ct.id resources
    Holds (left ct (ok resources)) = Given ct.id resources
    Holds (left ct (err e)) = Unit
    Holds (left ct panicked) = Unit

    pub record IsOrderly (c : Calls) : Type 0 where
      pub cache : IsGenuine clock inner ttl Given c.facade.items
      pub calls : (i : ℕ) → Holds (c.stage i)

    Holds-after_lookup :
        (ct : Contract) (r : Result (Slice DataResource))
        → ((rs : Slice DataResource) → r ≡ ok rs → Given ct.id rs)
        → Holds (after_lookup ct r) × Holds (left ct r)
    Holds-after_lookup ct (ok rs) h = (h rs refl, h rs refl)
    Holds-after_lookup ct (err e) h = (tt, tt)
    Holds-after_lookup ct panicked h = (tt, tt)

    Holds-after_load :
        (ct : Contract) (o : Option (Slice DataResource))
        → ((rs : Slice DataResource) → o ≡ some rs → Given ct.id rs)
        → Holds (after_load ct o)
    Holds-after_load ct none h = tt
    Holds-after_load ct (some rs) h = h rs refl

    fresh-given :
        (o : Option CacheEntry) (s : Facade W) (rs : Slice DataResource)
        → (fresh clock o s).0 ≡ some rs
        → (e : CacheEntry) × (o ≡ some e) × (e.resources ≡ rs)
    unfolding fresh
    fresh-given none s rs h = cc
    fresh-given (some e) s rs h =
        (e, refl, kept_value (is_past (clock s.world).0 e) e.resources rs h)

    fresh-items : (o : Option CacheEntry) (s : Facade W) → (fresh clock o s).1.items ≡ s.items
    unfolding fresh
    fresh-items none s = refl
    fresh-items (some e) s = refl

    module _ (behind : IsBehind clock inner ttl Given) where
      Move-Holds :
          {s t : Facade W} {a b : Stage}
          → Move s a t b
          → IsGenuine clock inner ttl Given s.items
          → Holds a
          → IsGenuine clock inner ttl Given t.items × Holds b
      unfolding load store
      Move-Holds {s = s} (passes ct unkeyed) g h = (
        subst (IsGenuine clock inner ttl Given) (sym (behind.keeps ct s)) g,
        (Holds-after_lookup ct _ (behind.gives ct s)).1,
      )
      Move-Holds {s = s} (loads ct keyed) g h = (
        subst (IsGenuine clock inner ttl Given) (sym (fresh-items (get s.items ct.id) s)) g,
        Holds-after_load ct _ (λ rs hit.
            let (e, found, same) = fresh-given (get s.items ct.id) s rs hit in
            subst (Given ct.id) same (g.given ct.id e found)),
      )
      Move-Holds {s = s} (asks ct) g h = (
        subst (IsGenuine clock inner ttl Given) (sym (behind.keeps ct s)) g,
        (Holds-after_lookup ct _ (behind.gives ct s)).0,
      )
      Move-Holds {s = s} (stores ct rs) g h =
          (stored-IsGenuine clock inner ttl Given (clock s.world).0 ct.id rs s.items h g, h)

      Step-IsOrderly : {c d : Calls} → Step c d → IsOrderly c → IsOrderly d
      Step-IsOrderly {c = c} (call i {stage = stage} move) h =
          let (cache, holds) = Move-Holds move h.cache (h.calls i) in
          record {
            cache = cache;
            calls = λ j. elim (Bool-cases (eqb j i)) [
              | inl same ↦ rw same holds
              | inr other ↦ rw other (h.calls j)
            ];
          }

      -- Over a lookup that leaves the cache alone, however any number of calls interleave: the cache
      -- stays genuine, and the resources that a call has fetched or returned, from the cache or not, are
      -- what the lookup may give for the id of its own contract, if this is so at the start.
      pub Reach-IsOrderly : {c d : Calls} → Reach c d → IsOrderly c → IsOrderly d
      Reach-IsOrderly at_start h = h
      Reach-IsOrderly (further reach step) h = Step-IsOrderly step (Reach-IsOrderly reach h)
