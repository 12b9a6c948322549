-- ===== src/Contract/Client/Requests.antt =====
-- The requests that DataResources of internal/contract/client.go sends.
use consent_owner_resolver.Prelude.{
  ◌≡◌, ◌≢◌, inl, inr, refl, sym, ◌∙◌, List, [], ◌∷◌, ◌++◌, Bytes, str, ◌==◌, eq_iff, All,
  Bool-cases, Option-cases, if◌then◌else◌, ok, ok-injective, append_assoc,
}
use mathlib.Core.Path.{subst}
use consent_owner_resolver.Prelude.Exec.{Exec, lift, >>=-state}
use consent_owner_resolver.Go.Library.{Attempt, done, failed}
use consent_owner_resolver.Contract.{Contract}
use consent_owner_resolver.Contract.Client.{
  Network, Client, Response, Url, get_json, sent, rebuilt, localize, fetch_all, data_resources,
}

-- The network with a log of the urls that were asked for, the last one first.
abbrev pub recording : {W : Type 0} → Network W → Network (W × List Bytes)
recording net = record {
  request_error = net.request_error;
  get = λ timeout url s. let (r, w) = net.get timeout url s.0 in (r, (w, url ∷ s.1));
  now = λ s. let (t, w) = net.now s.0 in (t, (w, s.1));
  verify_response = net.verify_response;
  service_offering = net.service_offering;
  data_resource = net.data_resource;
  parse_url = net.parse_url;
}

-- A url that begins with the base url of the client.
abbrev pub IsUnderBase : Client → Bytes → Type 0
IsUnderBase c url = (rest : Bytes) × (url ≡ c.base_url ++ rest)

-- An action that only asks for urls under the base url.
abbrev Stays : {W A : Type 0} → Client → Exec (W × List Bytes) A → Type 0
Stays {W} c m = (s : W × List Bytes) → All (IsUnderBase c) s.1 → All (IsUnderBase c) (m s).1.1

-- The path and the query of a url, which are kept.
abbrev pub target : Url → Bytes
target u = if u.raw_query == [] then u.path else u.path ++ b'?' ∷ u.raw_query

pub rebuilt-target :
    (quote : Bytes → Bytes) {W : Type 0} (net : Network W) (c : Client) (raw : Bytes) (u : Url)
    (url : Bytes)
    → rebuilt quote net c raw (done u) ≡ ok url
    → (u.path ≢ []) × (url ≡ c.base_url ++ target u)
unfolding rebuilt
rebuilt-target quote net c raw u url h = elim (Bool-cases (u.path == [])) [
  | inl empty ↦ cc (rw (empty, rebuilt) at h)
  | inr full ↦ elim (Bool-cases (u.path == str "/")) [
    | inl root ↦ cc (rw (full, root, rebuilt) at h)
    | inr other ↦ (
      λ e. cc ((eq_iff u.path []).1 e),
      elim (Bool-cases (u.raw_query == [])) [
        | inl plain ↦ rw plain (sym (ok-injective (rw (full, other, plain, rebuilt) at h)))
        | inr query ↦ rw query (
            sym (ok-injective (rw (full, other, query, rebuilt) at h))
            ∙ append_assoc c.base_url u.path (b'?' ∷ u.raw_query))
      ],
    )
  ]
]

module _ (quote : Bytes → Bytes) {W : Type 0} (net : Network W) (c : Client) where
  sent-log :
      {A : Type 0} (endpoint : Bytes) (unmarshal : Bytes → Attempt A)
      (r : Attempt Response × (W × List Bytes))
      → (sent quote (recording net) c endpoint unmarshal r).1 ≡ r.1
  unfolding sent
  sent-log endpoint unmarshal (answer, s) = refl

  get_json-Stays :
      {A : Type 0} (endpoint : Bytes) (unmarshal : Bytes → Attempt A)
      → IsUnderBase c endpoint
      → Stays c (get_json quote (recording net) c endpoint unmarshal)
  unfolding get_json
  get_json-Stays endpoint unmarshal under s h = elim (Option-cases (net.request_error endpoint)) [
    | inl fine ↦
        rw (fine, get_json)
          (subst (λ t. All (IsUnderBase c) t.1)
            (sym (sent-log endpoint unmarshal ((recording net).get c.timeout endpoint s)))
            (under, h))
    | inr (why, bad) ↦ rw (bad, get_json) h
  ]

  rebuilt-IsUnderBase :
      (raw : Bytes) (a : Attempt Url) (url : Bytes)
      → rebuilt quote (recording net) c raw a ≡ ok url
      → IsUnderBase c url
  unfolding rebuilt
  rebuilt-IsUnderBase raw (failed why) url h = cc
  rebuilt-IsUnderBase raw (done u) url h =
      let (path, joined) = rebuilt-target quote (recording net) c raw u url h in (target u, joined)

  localize-IsUnderBase :
      (raw url : Bytes) → localize quote (recording net) c raw ≡ ok url → IsUnderBase c url
  unfolding localize
  localize-IsUnderBase raw url h = rebuilt-IsUnderBase raw (net.parse_url raw) url h

  fetch_all-Stays : (refs : List Bytes) → Stays c (fetch_all quote (recording net) c refs)
  unfolding fetch_all
  fetch_all-Stays [] s h = h
  fetch_all-Stays (ref ∷ refs) s h =
      >>=-state (λ t. All (IsUnderBase c) t.1) (lift (localize quote (recording net) c ref)) _ s h
        λ url made t k.
          >>=-state (λ t. All (IsUnderBase c) t.1)
            (get_json quote (recording net) c url net.data_resource) _ t
            (get_json-Stays url net.data_resource (localize-IsUnderBase ref url made) t k)
            λ dr got u l.
              >>=-state (λ t. All (IsUnderBase c) t.1) (fetch_all quote (recording net) c refs) _ u
                (fetch_all-Stays refs u l) (λ rs walked v n. n)

  -- Where only urls that begin with the client's base url have been asked for, dereferencing a
  -- contract's offering asks only for such urls, whatever urls the contract and the catalog documents
  -- hold.
  pub data_resources-Stays :
      (ct : Contract) (s : W × List Bytes)
      → All (IsUnderBase c) s.1
      → All (IsUnderBase c) (data_resources quote (recording net) c ct s).1.1
  unfolding data_resources
  data_resources-Stays ct s h = elim (Bool-cases (ct.service_offering == [])) [
    | inl unset ↦ rw (unset, data_resources) h
    | inr given ↦
        rw (given, data_resources)
          (>>=-state (λ t. All (IsUnderBase c) t.1)
            (lift (localize quote (recording net) c ct.service_offering)) _ s h
            λ url made t k.
              >>=-state (λ t. All (IsUnderBase c) t.1)
                (get_json quote (recording net) c url net.service_offering) _ t
                (get_json-Stays url net.service_offering
                  (localize-IsUnderBase ct.service_offering url made) t k)
                λ offering got u l.
                  >>=-state (λ t. All (IsUnderBase c) t.1)
                    (fetch_all quote (recording net) c offering.data_resources) _ u
                    (fetch_all-Stays offering.data_resources u l) (λ rs walked v n. n))
  ]
