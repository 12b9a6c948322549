-- ===== src/Settled/Client.antt =====
-- Panics of the facade client, internal/contract/client.go, and of the cache in front of it,
-- internal/resolver/contract_cache.go.
use consent_owner_resolver.Prelude.{
  ℕ, ◌+◌, inl, inr, Option, none, some, List, [], ◌∷◌, Bytes, str, ◌==◌, eqb, ltb, length,
  Bool-cases, Option-cases, ◌++◌, Result, ok, err, panicked,
}
use consent_owner_resolver.Prelude.Exec.{lift}
use consent_owner_resolver.Prelude.Int.{ℤ, pos, negsuc}
use consent_owner_resolver.Go.Library.{Attempt, done, failed}
use consent_owner_resolver.Types.{Slice}
use consent_owner_resolver.Contract.{Contract, DataResource}
use consent_owner_resolver.Contract.Client.{
  Network, Client, Response, Url, failure, decoded, answered, sent, get_json, read_all,
  signed_contracts, rebuilt, localize, fetch_all, data_resources, max_response_bytes,
}
use consent_owner_resolver.Lookup.{ContractLookup}
use consent_owner_resolver.Cache.{
  Facade, on_world, client_lookup, load, remember, on_miss, cached_data_resources, caching_lookup,
  new_caching_lookup,
}
use consent_owner_resolver.Settled.{Settles, if-Settles, exec-Settles}

-- The calls of the interface come back.
pub record IsSettling {S : Type 0} (client : ContractLookup S) : Type 0 where
  pub contracts :
      (provider consumer : Bytes) (s : S) → Settles (client.signed_contracts provider consumer s).0
  pub resources : (ct : Contract) (s : S) → Settles (client.data_resources ct s).0

module _ (quote : Bytes → Bytes) {W : Type 0} (net : Network W) (c : Client) where
  document-Settles :
      {A : Type 0} (endpoint : Bytes) (a : Attempt A)
      → Settles {A = A} (elim a [
        | done v ↦ ok v
        | failed why ↦
            err (failure quote net c (str "decode response from ") endpoint (str ": " ++ why))
      ])
  document-Settles endpoint (done v) = tt
  document-Settles endpoint (failed why) = tt

  decoded-Settles :
      {A : Type 0} (endpoint : Bytes) (unmarshal : Bytes → Attempt A) (a : Attempt Bytes)
      → Settles (decoded quote net c endpoint unmarshal a)
  unfolding decoded
  decoded-Settles endpoint unmarshal (failed why) = tt
  decoded-Settles endpoint unmarshal (done body) =
      if-Settles (ltb max_response_bytes (length body)) _ _ tt
        (document-Settles endpoint (unmarshal body))

  answered-Settles :
      {A : Type 0} (endpoint : Bytes) (unmarshal : Bytes → Attempt A) (a : Attempt Response)
      → Settles (answered quote net c endpoint unmarshal a)
  unfolding answered
  answered-Settles endpoint unmarshal (failed why) = tt
  answered-Settles endpoint unmarshal (done resp) =
      if-Settles (eqb resp.status_code 200) _ _
        (decoded-Settles endpoint unmarshal (read_all (max_response_bytes + 1) resp)) tt

  get_json-Settles :
      {A : Type 0} (endpoint : Bytes) (unmarshal : Bytes → Attempt A) (w : W)
      → Settles (get_json quote net c endpoint unmarshal w).0
  unfolding get_json sent
  get_json-Settles endpoint unmarshal w = elim (Option-cases (net.request_error endpoint)) [
    | inl fine ↦
        rw (get_json, fine) (answered-Settles endpoint unmarshal (net.get c.timeout endpoint w).0)
    | inr (why, refused) ↦ rw (get_json, refused) tt
  ]

  signed_contracts-Settles :
      (provider consumer : Bytes) (w : W)
      → Settles (signed_contracts quote net c provider consumer w).0
  unfolding signed_contracts
  signed_contracts-Settles provider consumer w =
      exec-Settles (get_json quote net c _ net.verify_response) _ w
        (get_json-Settles _ net.verify_response w) (λ out v. tt)

  rebuilt-Settles : (raw_url : Bytes) (a : Attempt Url) → Settles (rebuilt quote net c raw_url a)
  unfolding rebuilt
  rebuilt-Settles raw_url (failed why) = tt
  rebuilt-Settles raw_url (done parsed) =
      if-Settles (parsed.path == []) _ _ tt
        (if-Settles (parsed.path == str "/") _ _ tt (if-Settles (parsed.raw_query == []) _ _ tt tt))

  localize-Settles : (raw_url : Bytes) → Settles (localize quote net c raw_url)
  unfolding localize
  localize-Settles raw_url = rebuilt-Settles raw_url (net.parse_url raw_url)

  fetch_all-Settles : (refs : List Bytes) (w : W) → Settles (fetch_all quote net c refs w).0
  unfolding fetch_all
  fetch_all-Settles [] w = tt
  fetch_all-Settles (ref ∷ refs) w =
      exec-Settles (lift (localize quote net c ref)) _ w (localize-Settles ref) (λ url v.
        exec-Settles (get_json quote net c url net.data_resource) _ v
          (get_json-Settles url net.data_resource v)
          (λ dr u.
            exec-Settles (fetch_all quote net c refs) _ u (fetch_all-Settles refs u) (λ rs t. tt)))

  data_resources-Settles : (ct : Contract) (w : W) → Settles (data_resources quote net c ct w).0
  unfolding data_resources
  data_resources-Settles ct w = elim (Bool-cases (ct.service_offering == [])) [
    | inl nothing ↦ rw (data_resources, nothing) tt
    | inr offered ↦
        rw (data_resources, offered)
          (exec-Settles (lift (localize quote net c ct.service_offering)) _ w
            (localize-Settles ct.service_offering)
            (λ url v.
              exec-Settles (get_json quote net c url net.service_offering) _ v
                (get_json-Settles url net.service_offering v)
                (λ offering u.
                  exec-Settles (fetch_all quote net c offering.data_resources) _ u
                    (fetch_all-Settles offering.data_resources u) (λ rs t. tt))))
  ]

  pub client_lookup-IsSettling : IsSettling (client_lookup quote net c)
  unfolding client_lookup on_world
  client_lookup-IsSettling = record {
    contracts = λ provider consumer s. signed_contracts-Settles provider consumer s.world;
    resources = λ ct s. data_resources-Settles ct s.world;
  }

module _ {W : Type 0} (clock : W → ℕ × W) (inner : ContractLookup (Facade W))
    (settling : IsSettling inner) where
  remember-Settles :
      (ttl : ℕ) (id : Bytes) (r : Result (Slice DataResource) × Facade W)
      → Settles r.0
      → Settles (remember clock inner ttl id r).0
  unfolding remember
  remember-Settles ttl id (ok rs, s) h = tt
  remember-Settles ttl id (err e, s) h = tt
  remember-Settles ttl id (panicked, s) h = h

  on_miss-Settles :
      (ttl : ℕ) (ct : Contract) (r : Option (Slice DataResource) × Facade W)
      → Settles (on_miss clock inner ttl ct r).0
  unfolding on_miss
  on_miss-Settles ttl ct (some cached, s) = tt
  on_miss-Settles ttl ct (none, s) =
      remember-Settles ttl ct.id (inner.data_resources ct s) (settling.resources ct s)

  cached-Settles :
      (ttl : ℕ) (ct : Contract) (s : Facade W)
      → Settles (cached_data_resources clock inner ttl ct s).0
  unfolding cached_data_resources
  cached-Settles ttl ct s = elim (Bool-cases (ct.id == [])) [
    | inl unkeyed ↦ rw (cached_data_resources, unkeyed) (settling.resources ct s)
    | inr keyed ↦ rw (cached_data_resources, keyed) (on_miss-Settles ttl ct (load clock ct.id s))
  ]

  caching_lookup-IsSettling : (ttl : ℕ) → IsSettling (caching_lookup clock inner ttl)
  unfolding caching_lookup
  caching_lookup-IsSettling ttl = record {
    contracts = settling.contracts;
    resources = cached-Settles ttl;
  }

  pub new_caching_lookup-IsSettling : (ttl : ℤ) → IsSettling (new_caching_lookup clock inner ttl)
  unfolding new_caching_lookup
  new_caching_lookup-IsSettling (negsuc n) = settling
  new_caching_lookup-IsSettling (pos ttl) = elim (Bool-cases (ltb 0 ttl)) [
    | inl kept ↦ rw (new_caching_lookup, kept) (caching_lookup-IsSettling ttl)
    | inr off ↦ rw (new_caching_lookup, off) settling
  ]
