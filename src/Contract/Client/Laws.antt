-- ===== src/Contract/Client/Laws.antt =====
-- Laws of getJSON in internal/contract/client.go.
use consent_owner_resolver.Prelude.{
  ℕ, zero, suc, ◌+◌, ◌≤◌, ◌≡◌, inl, inr, refl, ap, none, [], ◌∷◌, arith, Bytes, length, leb, eqb,
  Bool-cases, Option-cases, ok,
}
use consent_owner_resolver.Go.Library.{Attempt, done, failed}
use consent_owner_resolver.Go.Strings.{take}
use consent_owner_resolver.Contract.Client.{
  Network, Client, Response, max_response_bytes, read_all, decoded, answered, sent, get_json,
}

-- A response that is accepted: its status is 200, it ends within the limit, and it decodes.
pub record Accepted {A : Type 0} (unmarshal : Bytes → Attempt A) (v : A) (resp : Response)
    : Type 0 where
  pub status : resp.status_code ≡ 200
  pub bounded : length resp.body ≤ max_response_bytes
  pub whole : resp.broken ≡ none
  pub document : unmarshal resp.body ≡ done v

length-take : (n : ℕ) (s : Bytes) → n ≤ length s → length (take n s) ≡ n
unfolding take
length-take zero [] h = refl
length-take (suc n) [] h = elim h [ ]
length-take zero (b ∷ s) h = refl
length-take (suc n) (b ∷ s) h = ap suc (length-take n s (omega arith))

too_long :
    (s : Bytes)
    → max_response_bytes + 1 ≤ length s
    → ¬ (length (take (max_response_bytes + 1) s) ≤ max_response_bytes)
too_long s h k = omega (arith, length-take (max_response_bytes + 1) s h)

module _ (quote : Bytes → Bytes) {W : Type 0} (net : Network W) (c : Client) {A : Type 0}
    (endpoint : Bytes) (unmarshal : Bytes → Attempt A) where
  decoded-eq-ok :
      (body : Bytes) (v : A)
      → decoded quote net c endpoint unmarshal (done body) ≡ ok v
      → (length body ≤ max_response_bytes) × (unmarshal body ≡ done v)
  unfolding decoded
  decoded-eq-ok body v h = (ground arith, ground arith)

  decoded_failed :
      (why : Bytes) (v : A) → ¬ (decoded quote net c endpoint unmarshal (failed why) ≡ ok v)
  unfolding decoded
  decoded_failed why v h = cc

  read_all-Accepted :
      (resp : Response) (v : A)
      → resp.status_code ≡ 200
      → decoded quote net c endpoint unmarshal (read_all (max_response_bytes + 1) resp) ≡ ok v
      → Accepted unmarshal v resp
  unfolding read_all
  read_all-Accepted resp v status h =
      elim (Bool-cases (leb (max_response_bytes + 1) (length resp.body))) [
        | inl long ↦
            let (fits, same) = decoded-eq-ok _ v (rw (long, read_all) at h) in
            absurd (too_long resp.body (ground arith) fits)
        | inr short ↦ elim (Option-cases resp.broken) [
          | inl whole ↦
              let (fits, same) = decoded-eq-ok resp.body v (rw (short, whole, read_all) at h) in
              record { status = status; bounded = fits; whole = whole; document = same }
          | inr (why, broken) ↦ absurd (decoded_failed why v (rw (short, broken, read_all) at h))
        ]
      ]

  answered-Accepted :
      (resp : Response) (v : A)
      → answered quote net c endpoint unmarshal (done resp) ≡ ok v
      → Accepted unmarshal v resp
  unfolding answered
  answered-Accepted resp v h = elim (Bool-cases (eqb resp.status_code 200)) [
    | inl fine ↦ read_all-Accepted resp v (ground arith) (rw (fine, answered) at h)
    | inr other ↦ cc (rw (other, answered) at h)
  ]

  sent-Accepted :
      (r : Attempt Response × W) (v : A)
      → (sent quote net c endpoint unmarshal r).0 ≡ ok v
      → (resp : Response) × (r.0 ≡ done resp) × Accepted unmarshal v resp
  unfolding sent answered
  sent-Accepted (done resp, w) v h = (resp, refl, answered-Accepted resp v h)
  sent-Accepted (failed why, w) v h = cc

  -- A document is accepted only from a response of status 200 whose body ends without an error,
  -- within the limit of 4 MiB, and decodes to it.
  pub get_json-Accepted :
      (w : W) (v : A)
      → (get_json quote net c endpoint unmarshal w).0 ≡ ok v
      → (resp : Response) × ((net.get c.timeout endpoint w).0 ≡ done resp)
        × Accepted unmarshal v resp
  unfolding get_json
  get_json-Accepted w v h = elim (Option-cases (net.request_error endpoint)) [
    | inl fine ↦ sent-Accepted (net.get c.timeout endpoint w) v (rw (fine, get_json) at h)
    | inr (why, bad) ↦ cc (rw (bad, get_json) at h)
  ]
