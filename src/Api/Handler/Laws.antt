-- ===== src/Api/Handler/Laws.antt =====
-- Laws of internal/api/handler.go: which requests the route /resolve answers.
use consent_owner_resolver.Prelude.{
  ℕ, Bool, true, false, not, some, [], ◌∷◌, ◌++◌, ◌≡◌, ◌≢◌, ◌⊎◌, ◌↔◌, inl, inr, refl, sym, ap, ◌∙◌,
  arith, Bytes, str, ◌==◌, eq_iff, has_prefix, length, Bool-cases, if◌then◌else◌, Result, ok, err,
  panicked, ok-injective,
}
use consent_owner_resolver.Prelude.Int.{ℤ}
use consent_owner_resolver.Types.{ResolveRequest, ResolveResult}
use consent_owner_resolver.Api.Handler.{
  bearer_prefix, HttpRequest, Decoding, decoded, too_large, invalid, Payload, error, health, result,
  Reply, Handler, Shared, drop, authorized, write_error, replied, on_decoded, handle_resolve,
}

prefixed : (p s : Bytes) → has_prefix s p ≡ true → s ≡ p ++ drop (length p) s
unfolding has_prefix drop
prefixed [] s h = refl
prefixed (a ∷ p) [] h = cc
prefixed (a ∷ p) (b ∷ s) h = ground (arith, prefixed p s)

has_prefix-append : (p s : Bytes) → has_prefix (p ++ s) p ≡ true
unfolding has_prefix
has_prefix-append [] s = refl
has_prefix-append (a ∷ p) s = ground (arith, has_prefix-append p s)

drop-append : (p s : Bytes) → drop (length p) (p ++ s) ≡ s
unfolding drop
drop-append [] s = refl
drop-append (a ∷ p) s = drop-append p s

presents_iff :
    (p token header : Bytes)
    → ((if not (has_prefix header p) then false else drop (length p) header == token) ≡ true)
      ↔ (header ≡ p ++ token)
presents_iff p token header = elim (Bool-cases (has_prefix header p)) [
  | inl begins ↦ rw begins (
    λ same. prefixed p header begins ∙ ap (λ t. p ++ t) ((eq_iff _ token).0 same),
    λ whole. (eq_iff _ token).1 (ap (drop (length p)) whole ∙ drop-append p token),
  )
  | inr other ↦ rw other (
    λ e. cc,
    λ whole. cc (sym other ∙ ap (λ t. has_prefix t p) whole ∙ has_prefix-append p token),
  )
]

-- A header is accepted exactly when no secret is configured, or when the header is the scheme with
-- the secret behind it.
pub authorized_iff :
    (auth_token header : Bytes)
    → (authorized auth_token header ≡ true)
      ↔ ((auth_token ≡ []) ⊎ (header ≡ bearer_prefix ++ auth_token))
unfolding authorized
authorized_iff auth_token header = elim (Bool-cases (auth_token == [])) [
  | inl unset ↦ rw unset (λ e. inl ((eq_iff auth_token []).0 unset), λ e. refl)
  | inr set ↦ rw set (
    λ e. inr ((presents_iff bearer_prefix auth_token header).0 e),
    λ o. elim o [
      | inl empty ↦ cc (sym set ∙ (eq_iff auth_token []).1 empty)
      | inr whole ↦ (presents_iff bearer_prefix auth_token header).1 whole
    ],
  )
]

-- The request that a result answers.
pub record IsServed {S Fl : Type 0} (h : Handler S) (decode : ℤ → Bytes → Decoding)
    (q : HttpRequest) (s : Shared S Fl) (reply : Reply) (out : ResolveResult) : Type 0 where
  pub method : q.method ≡ str "POST"
  pub admitted : (h.auth_token ≡ []) ⊎ (q.authorization ≡ bearer_prefix ++ h.auth_token)
  pub request : ResolveRequest
  pub body : decode h.max_body_bytes q.body ≡ decoded request
  pub resolved : (h.resolver request s.facade).0 ≡ ok out
  pub status : reply.status ≡ 200

pub result-injective : {a b : ResolveResult} → result a ≡ result b → a ≡ b
result-injective h = cc

is_result : Payload → Bool
is_result (error msg) = false
is_result (health status) = false
is_result (result out) = true

-- An error is no result.
error-ne-result :
    (reply written : Reply) (out : ResolveResult)
    → is_result written.payload ≡ false
    → ◌≡◌ {A = Result Reply} (ok written) (ok reply)
    → reply.payload ≢ result out
unfolding is_result
error-ne-result reply written out plain e p =
    cc (sym plain ∙ ap (λ y. is_result y.payload) (ok-injective e) ∙ ap is_result p)

-- The status of a request that does not present the secret.
abbrev pub refused_status : HttpRequest → ℕ
refused_status q = if q.method == str "POST" then 401 else 405

module _ (quote digest : Bytes → Bytes) {S Fl : Type 0} (h : Handler S) where
  replied-result :
      (q : HttpRequest) (req : ResolveRequest) (s : Shared S Fl) (r : Result ResolveResult × S)
      (reply : Reply) (out : ResolveResult)
      → (replied quote digest h q req s.metrics s.log r).0 ≡ ok reply
      → reply.payload ≡ result out
      → (r.0 ≡ ok out) × (reply.status ≡ 200)
  unfolding replied is_result
  replied-result q req s (ok o, t) reply out e p = (
    ap ok (result-injective (ap (λ y. y.payload) (ok-injective e) ∙ p)),
    ap (λ y. y.status) (sym (ok-injective e)),
  )
  replied-result q req s (err x, t) reply out e p = elim (Bool-cases x.bad_request) [
    | inl bad ↦ absurd (error-ne-result reply _ out refl (rw (bad, replied) at e) p)
    | inr other ↦ absurd (error-ne-result reply _ out refl (rw (other, replied) at e) p)
  ]
  replied-result q req s (panicked, t) reply out e p = cc

  on_decoded-result :
      (q : HttpRequest) (d : Decoding) (s : Shared S Fl) (reply : Reply) (out : ResolveResult)
      → (on_decoded quote digest h q d s).0 ≡ ok reply
      → reply.payload ≡ result out
      → (req : ResolveRequest) × (d ≡ decoded req)
        × ((h.resolver req s.facade).0 ≡ ok out)
        × (reply.status ≡ 200)
  unfolding on_decoded is_result
  on_decoded-result q (decoded req) s reply out e p =
      let (same, status) = replied-result q req s (h.resolver req s.facade) reply out e p in
      (req, refl, same, status)
  on_decoded-result q too_large s reply out e p = absurd (error-ne-result reply _ out refl e p)
  on_decoded-result q (invalid why) s reply out e p = absurd (error-ne-result reply _ out refl e p)

  -- A reply that carries a result has the status 200, and answers a POST that presents the secret,
  -- if there is one, and whose body decodes to a request that the resolver answers with that result:
  -- no error, of whatever kind, is replied to with a result.
  pub handle_resolve-IsServed :
      (decode : ℤ → Bytes → Decoding) (q : HttpRequest) (s : Shared S Fl) (reply : Reply)
      (out : ResolveResult)
      → (handle_resolve quote digest h decode q s).0 ≡ ok reply
      → reply.payload ≡ result out
      → IsServed h decode q s reply out
  unfolding handle_resolve is_result
  handle_resolve-IsServed decode q s reply out e p = elim (Bool-cases (q.method == str "POST")) [
    | inr other ↦ absurd (error-ne-result reply _ out refl (rw (other, handle_resolve) at e) p)
    | inl post ↦ elim (Bool-cases (authorized h.auth_token q.authorization)) [
      | inr refused ↦
          absurd (error-ne-result reply _ out refl (rw (post, refused, handle_resolve) at e) p)
      | inl admitted ↦
          let (request, body, resolved, status) =
            on_decoded-result q (decode h.max_body_bytes q.body) s reply out
              (rw (post, admitted, handle_resolve) at e) p in
          record {
            method = (eq_iff q.method (str "POST")).0 post;
            admitted = (authorized_iff h.auth_token q.authorization).0 admitted;
            request = request;
            body = body;
            resolved = resolved;
            status = status;
          }
    ]
  ]

  -- Inside the instrumentation of the route, and where a secret is configured, a request without it
  -- leaves the state as it is, and is replied to with an error.
  pub handle_resolve_refused :
      (decode : ℤ → Bytes → Decoding) (q : HttpRequest) (s : Shared S Fl)
      → h.auth_token ≢ []
      → q.authorization ≢ bearer_prefix ++ h.auth_token
      → (reply : Reply) × (handle_resolve quote digest h decode q s ≡ (ok reply, s))
        × (reply.status ≡ refused_status q)
  unfolding handle_resolve
  handle_resolve_refused decode q s secret wrong =
      elim (Bool-cases (authorized h.auth_token q.authorization)) [
        | inl admitted ↦ elim ((authorized_iff h.auth_token q.authorization).0 admitted) [
          | inl empty ↦ absurd (secret empty)
          | inr whole ↦ absurd (wrong whole)
        ]
        | inr refused ↦ elim (Bool-cases (q.method == str "POST")) [
          | inl post ↦ (
            record (write_error 401 (str "unauthorized")) { challenge = some (str "Bearer") },
            rw (post, refused),
            rw post refl,
          )
          | inr other ↦ (write_error 405 (str "only POST is allowed"), rw other, rw other refl)
        ]
      ]
