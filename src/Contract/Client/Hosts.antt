-- ===== src/Contract/Client/Hosts.antt =====
-- The host that localize of internal/contract/client.go leads to.
use consent_owner_resolver.Prelude.{
  ℕ, ◌≡◌, ◌≢◌, inl, inr, ◌↔◌, refl, sym, ap, ◌∙◌, Bool, true, false, [], ◌∷◌, ◌++◌, Bytes, ◌==◌,
  All, eqb, Bool-cases, if◌then◌else◌, ok, append_assoc, append-nil, append_cancel, ◌||◌,
}
use consent_owner_resolver.Go.Library.{done}
use consent_owner_resolver.Contract.Client.{Network, Client, Url, localize, rebuilt}
use consent_owner_resolver.Contract.Client.Requests.{target, rebuilt-target}

-- The bytes that end the authority of a url.
abbrev pub ends_host : ℕ → Bool
ends_host b = eqb b b'/' || eqb b b'?' || eqb b b'#'

-- The authority, behind `scheme://`: all up to the path, the query or the fragment.
unfoldable pub authority : Bytes → Bytes
authority [] = []
authority (b ∷ s) = let rest = authority s in if ends_host b then [] else b ∷ rest

abbrev pub IsHost : Bytes → Type 0
IsHost = All (λ b. ends_host b ≡ false)

authority-append : (host s : Bytes) → IsHost host → authority (host ++ s) ≡ host ++ authority s
unfolding authority
authority-append [] s h = refl
authority-append (b ∷ host) s h = rw (h.0, authority-append host s h.1)

append-ne : (host : Bytes) (b : ℕ) (s : Bytes) → host ++ b ∷ s ≢ host
append-ne [] b s e = cc
append-ne (a ∷ host) b s e = append-ne host b s (tail_eq e)
  where
    tail_eq : {x : ℕ} {xs ys : Bytes} → ◌≡◌ {A = Bytes} (x ∷ xs) (x ∷ ys) → xs ≡ ys
    tail_eq p = cc

target-cons :
    (b : ℕ) (p query : Bytes)
    → (x : Bytes) × (target (record { path = b ∷ p; raw_query = query }) ≡ b ∷ x)
target-cons b p query = elim (Bool-cases (query == [])) [
  | inl plain ↦ (p, rw plain)
  | inr given ↦ (p ++ b'?' ∷ query, rw given)
]

authority-cons :
    (host : Bytes) (b : ℕ) (x : Bytes)
    → IsHost host
    → (authority (host ++ b ∷ x) ≡ host) ↔ (ends_host b ≡ true)
unfolding authority
authority-cons host b x is_host = elim (Bool-cases (ends_host b)) [
  | inl ends ↦ (λ e. ends, λ e. authority-append host (b ∷ x) is_host ∙ rw ends (append-nil host))
  | inr inside ↦ (
    λ e. absurd (
        append-ne host b (authority x)
          (sym (authority-append host (b ∷ x) is_host ∙ rw inside) ∙ e)),
    λ e. cc,
  )
]

authority-target :
    (host : Bytes) (b : ℕ) (p query : Bytes)
    → IsHost host
    → (authority (host ++ target (record { path = b ∷ p; raw_query = query })) ≡ host)
      ↔ (ends_host b ≡ true)
authority-target host b p query is_host =
    let (x, begins) = target-cons b p query in rw begins (authority-cons host b x is_host)

module _ (quote : Bytes → Bytes) {W : Type 0} (net : Network W) (c : Client) where
  module _ (scheme host : Bytes) (based : c.base_url ≡ scheme ++ host) (is_host : IsHost host) where
    localized :
        (raw url : Bytes) (u : Url)
        → net.parse_url raw ≡ done u
        → localize quote net c raw ≡ ok url
        → (u.path ≢ []) × (url ≡ scheme ++ (host ++ target u))
    unfolding localize
    localized raw url u parsed h =
        let (path, joined) =
          rebuilt-target quote net c raw u url (rw (ap (rebuilt quote net c raw) parsed) at h) in
        (path, joined ∙ ap (λ b. b ++ target u) based ∙ append_assoc scheme host (target u))

  -- For a base url that is a scheme and a host, and a url whose parsed path is not empty: where the
  -- localized url begins with that scheme, what follows it names the host of the base url exactly when
  -- the first byte of the path is one that ends the authority.
  pub localize-authority :
      (scheme host raw rest : Bytes) (b : ℕ) (p query : Bytes)
      → c.base_url ≡ scheme ++ host
      → IsHost host
      → net.parse_url raw ≡ done (record { path = b ∷ p; raw_query = query })
      → localize quote net c raw ≡ ok (scheme ++ rest)
      → (authority rest ≡ host) ↔ (ends_host b ≡ true)
  localize-authority scheme host raw rest b p query based is_host parsed h =
      let (path, joined) = localized scheme host based is_host raw _ _ parsed h in
      rw (append_cancel scheme rest _ joined) (authority-target host b p query is_host)
