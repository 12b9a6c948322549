-- ===== src/Api/Metrics/Counts.antt =====
-- The request counter of internal/api/metrics.go, summed over the statuses of a route.
use consent_owner_resolver.Prelude.{
  ℕ, ◌+◌, ◌<◌, ◌^◌, ◌≡◌, List, [], ◌∷◌, arith, Bytes, ◌==◌, eq_iff, All, Bool-cases, inl, inr,
  if◌then◌else◌,
}
use consent_owner_resolver.Api.Metrics.{RequestKey, same_key, count_request}

-- The responses that are counted for a route, whatever their status.
unfoldable pub total : Bytes → List (RequestKey × ℕ) → ℕ
total route [] = 0
total route ((k, n) ∷ requests) =
    let rest = total route requests in if k.route == route then n + rest else rest

pub total-count_request :
    (route : Bytes) (key : RequestKey) (requests : List (RequestKey × ℕ))
    → total key.route requests + 1 < 2 ^ 64
    → total route (count_request key requests)
      ≡ (if key.route == route then total route requests + 1 else total route requests)
unfolding total count_request
total-count_request route key [] h = ground arith
total-count_request route key ((k, n) ∷ requests) h = ground (
  arith,
  total-count_request route key requests,
  eq_iff k.route key.route,
  eq_iff k.route route,
  eq_iff key.route route,
)

-- Each label of the table meets a predicate.
pub count_request-All :
    (P : RequestKey → Type 0) (key : RequestKey) (requests : List (RequestKey × ℕ))
    → P key
    → All (λ e. P e.0) requests
    → All (λ e. P e.0) (count_request key requests)
unfolding count_request
count_request-All P key [] p h = (p, tt)
count_request-All P key ((k, n) ∷ requests) p h = elim (Bool-cases (same_key k key)) [
  | inl same ↦ rw (same, count_request) h
  | inr other ↦ rw (other, count_request) (h.0, count_request-All P key requests p h.1)
]
