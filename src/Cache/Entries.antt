-- ===== src/Cache/Entries.antt =====
-- The map of internal/resolver/contract_cache.go, before and after a store.
use consent_owner_resolver.Prelude.{
  ℕ, ◌+◌, ◌≡◌, refl, sym, ap, ◌∙◌, Bool, true, false, Option, none, some, [], ◌∷◌, arith, Bytes,
  ◌==◌, eq_iff, eq_refl, leb, length, Bool-cases, inl, inr, ◌⊎◌, some-injective, if◌then◌else◌,
}
use consent_owner_resolver.Prelude.Dict.{Dict, get, put, get-put}
use consent_owner_resolver.Types.{Slice}
use consent_owner_resolver.Contract.{DataResource}
use consent_owner_resolver.Cache.{CacheEntry, is_past, sweep_expired, stored, sweep_threshold}

-- No key has two entries.
abbrev pub Distinct : Dict CacheEntry → Type 0
Distinct [] = Unit
Distinct ((k, e) ∷ items) = (get items k ≡ none) × Distinct items

-- An entry that is not past its time.
abbrev pub live : ℕ → Option CacheEntry → Option CacheEntry
live now none = none
live now (some e) = if is_past now e then none else some e

get-sweep_expired :
    (now : ℕ) (items : Dict CacheEntry) (j : Bytes)
    → Distinct items
    → get (sweep_expired now items) j ≡ live now (get items j)
unfolding get sweep_expired
get-sweep_expired now [] j h = refl
get-sweep_expired now ((k, e) ∷ items) j h =
    ground (arith, get-sweep_expired now items j h.1, eq_iff k j)

Distinct-sweep_expired :
    (now : ℕ) (items : Dict CacheEntry) → Distinct items → Distinct (sweep_expired now items)
unfolding sweep_expired
Distinct-sweep_expired now [] h = tt
Distinct-sweep_expired now ((k, e) ∷ items) h =
    ground (arith, Distinct-sweep_expired now items h.1, get-sweep_expired now items k h.1)

Distinct-put :
    (items : Dict CacheEntry) (k : Bytes) (e : CacheEntry)
    → Distinct items
    → Distinct (put items k e)
unfolding put get
Distinct-put [] k e h = (refl, tt)
Distinct-put ((j, d) ∷ items) k e h =
    ground (arith, Distinct-put items k e h.1, get-put items k j e, eq_iff j k, eq_iff k j)

module _ {W : Type 0} (clock : W → ℕ × W) where
  pub Distinct-stored :
      (ttl now : ℕ) (id : Bytes) (rs : Slice DataResource) (items : Dict CacheEntry)
      → Distinct items
      → Distinct (stored clock ttl now id rs items)
  unfolding stored
  Distinct-stored ttl now id rs items h = elim (Bool-cases (leb sweep_threshold (length items))) [
    | inl grown ↦ rw grown (Distinct-put _ id _ (Distinct-sweep_expired now items h))
    | inr small ↦ rw small (Distinct-put items id _ h)
  ]

  -- After a store in a map with one entry for each key: the new entry is found under its id, with its
  -- time to live; every other entry that is not past its time is found as before; and one that is past
  -- its time is found exactly if the map was below the threshold of the sweep.
  pub get-stored :
      (ttl now : ℕ) (id j : Bytes) (rs : Slice DataResource) (items : Dict CacheEntry)
      → Distinct items
      → get (stored clock ttl now id rs items) j ≡ (
          if id == j
          then some (record { resources = rs; expires = now + ttl })
          else if leb sweep_threshold (length items)
          then live now (get items j)
          else get items j)
  unfolding stored
  get-stored ttl now id j rs items h = elim (Bool-cases (leb sweep_threshold (length items))) [
    | inl grown ↦ rw grown (
        get-put (sweep_expired now items) id j _
        ∙ ap (λ o. if id == j then some (record { resources = rs; expires = now + ttl }) else o)
            (get-sweep_expired now items j h))
    | inr small ↦ rw small (get-put items id j _)
  ]

  pub get-stored_here :
      (ttl now : ℕ) (id : Bytes) (rs : Slice DataResource) (items : Dict CacheEntry)
      → Distinct items
      → get (stored clock ttl now id rs items) id
        ≡ some (record { resources = rs; expires = now + ttl })
  get-stored_here ttl now id rs items h = rw (eq_refl id) at (get-stored ttl now id id rs items h)

  live-some : (now : ℕ) (o : Option CacheEntry) (e : CacheEntry) → live now o ≡ some e → o ≡ some e
  live-some now none e h = cc
  live-some now (some d) e h = ground arith

  kept-some :
      (grown : Bool) (now : ℕ) (o : Option CacheEntry) (e : CacheEntry)
      → (if grown then live now o else o) ≡ some e
      → o ≡ some e
  kept-some true now o e h = live-some now o e h
  kept-some false now o e h = h

  -- What is found after a store is the new entry, or was found before.
  pub stored-cases :
      (ttl now : ℕ) (id j : Bytes) (rs : Slice DataResource) (items : Dict CacheEntry)
      (e : CacheEntry)
      → Distinct items
      → get (stored clock ttl now id rs items) j ≡ some e
      → ((id ≡ j) × (rs ≡ e.resources) × (now + ttl ≡ e.expires)) ⊎ (get items j ≡ some e)
  stored-cases ttl now id j rs items e h found = elim (Bool-cases (id == j)) [
    | inl same ↦
        let there = rw same at (sym (get-stored ttl now id j rs items h) ∙ found) in
        inl (
          (eq_iff id j).0 same,
          ap (λ d. d.resources) (some-injective there),
          ap (λ d. d.expires) (some-injective there),
        )
    | inr other ↦ inr (
        kept-some _ now (get items j) e
          (rw other at (sym (get-stored ttl now id j rs items h) ∙ found)))
  ]
