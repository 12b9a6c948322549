-- ===== src/Api/Threads/Stages.antt =====
-- The stages of concurrent requests of internal/api/handler.go: the routes and statuses that they
-- carry.
use consent_owner_resolver.Prelude.{
  ℕ, ◌+◌, ◌≤◌, ◌≡◌, arith, inl, inr, refl, Option, none, some, List, [], ◌∷◌, Bytes, str, ◌==◌,
  Bool-cases, if◌then◌else◌, Error, Result, ok, err, panicked,
}
use consent_owner_resolver.Types.{ResolveRequest, ResolveResult}
use consent_owner_resolver.Api.Handler.{Decoding, decoded, too_large, invalid, Reply, authorized}
use consent_owner_resolver.Api.Serve.{Arrival, route_resolve, route_health, route_metrics}
use consent_owner_resolver.Api.Serve.Statuses.{IsStatus}
use consent_owner_resolver.Api.Serve.Labels.{IsRoute}
use consent_owner_resolver.Api.Threads.{
  Serving, Stage, arrived, resolving, failing, reporting, replying, scraping, noting, responded,
  answered, passed, crashed, Service, after_decoding, after_resolving, refusal, enter_metrics,
  enter_health, enter_resolve, stamped, enter, final,
}

pub refusal-IsStatus : (e : Error) → IsStatus (refusal e).status
unfolding refusal
refusal-IsStatus e = elim (Bool-cases e.bad_request) [
  | inl bad ↦ rw bad (inr (inl refl))
  | inr other ↦ rw other (inr (inr (inr (inr (inr refl)))))
]

module _ {W : Type 0} where
  -- A request under way is one of a known route, with a known status from when it is set.
  abbrev pub IsKnown : Stage W → Type 0
  IsKnown (arrived a) = Unit
  IsKnown (resolving g req) = IsRoute g.route
  IsKnown (failing g req e) = IsRoute g.route
  IsKnown (reporting g req e) = IsRoute g.route
  IsKnown (replying g out) = IsRoute g.route × IsStatus out.status
  IsKnown (scraping g) = IsRoute g.route × (g.recorder.status ≡ 0)
  IsKnown (noting g failure) = IsRoute g.route × IsStatus (final g)
  IsKnown (responded g) = IsRoute g.route × IsStatus (final g)
  IsKnown (answered route w) = Unit
  IsKnown (passed w) = Unit
  IsKnown crashed = Unit

  -- One, for a request of the route that has been answered.
  abbrev pub one : Bytes → Stage W → ℕ
  one j (answered route w) = if route == j then 1 else 0
  one j (arrived a) = 0
  one j (resolving g req) = 0
  one j (failing g req e) = 0
  one j (reporting g req e) = 0
  one j (replying g out) = 0
  one j (scraping g) = 0
  one j (noting g failure) = 0
  one j (responded g) = 0
  one j (passed w) = 0
  one j crashed = 0

  -- The steps that a request may still take.
  abbrev pub ahead : Stage W → ℕ
  ahead (arrived a) = 6
  ahead (resolving g req) = 5
  ahead (failing g req e) = 4
  ahead (reporting g req e) = 3
  ahead (replying g out) = 2
  ahead (scraping g) = 3
  ahead (noting g failure) = 2
  ahead (responded g) = 1
  ahead (answered route w) = 0
  ahead (passed w) = 0
  ahead crashed = 0

  -- How many of the requests are answered by the route.
  unfoldable pub answers : Bytes → List (Stage W) → ℕ
  answers j [] = 0
  answers j (x ∷ xs) = one j x + answers j xs

  -- The steps that the requests may still take.
  unfoldable pub work : List (Stage W) → ℕ
  work [] = 0
  work (x ∷ xs) = ahead x + work xs

  -- What a stage before the answer is known by.
  pub record IsFresh (n : ℕ) (x : Stage W) : Type 0 where
    pub known : IsKnown x
    pub uncounted : (j : Bytes) → one j x ≡ 0
    pub nearer : ahead x ≤ n

  replying-IsFresh :
      (g : Serving W) (out : Reply) (n : ℕ)
      → IsRoute g.route
      → IsStatus out.status
      → 2 ≤ n
      → IsFresh n (replying g out)
  replying-IsFresh g out n k status near = record {
    known = (k, status);
    uncounted = λ j. refl;
    nearer = near;
  }

  after_decoding-IsFresh :
      (g : Serving W) (d : Decoding) → IsRoute g.route → IsFresh 5 (after_decoding g d)
  unfolding after_decoding
  after_decoding-IsFresh g (decoded req) k = record {
    known = k;
    uncounted = λ j. refl;
    nearer = omega arith;
  }
  after_decoding-IsFresh g too_large k =
      replying-IsFresh _ _ 5 k (inr (inr (inr (inr (inl refl))))) (omega arith)
  after_decoding-IsFresh g (invalid why) k = replying-IsFresh _ _ 5 k (inr (inl refl)) (omega arith)

  pub after_resolving-nearer :
      (g : Serving W) (req : ResolveRequest) (r : Result ResolveResult)
      → ahead (after_resolving g req r) ≤ 4
  unfolding after_resolving
  after_resolving-nearer g req (ok out) = omega arith
  after_resolving-nearer g req (err e) = omega arith
  after_resolving-nearer g req panicked = omega arith

  pub after_resolving-IsFresh :
      (g : Serving W) (req : ResolveRequest) (r : Result ResolveResult)
      → IsRoute g.route
      → IsFresh 4 (after_resolving g req r)
  unfolding after_resolving
  after_resolving-IsFresh g req (ok out) k = replying-IsFresh _ _ 4 k (inl refl) (omega arith)
  after_resolving-IsFresh g req (err e) k = record {
    known = k;
    uncounted = λ j. refl;
    nearer = omega arith;
  }
  after_resolving-IsFresh g req panicked k = record {
    known = tt;
    uncounted = λ j. refl;
    nearer = omega arith;
  }

  enter_metrics-IsFresh :
      (g : Serving W) → IsRoute g.route → g.recorder.status ≡ 0 → IsFresh 5 (enter_metrics g)
  unfolding enter_metrics
  enter_metrics-IsFresh g k new = elim (Bool-cases (g.request.method == str "GET")) [
    | inl get ↦
        rw (enter_metrics, get)
          (record { known = (k, new); uncounted = λ j. refl; nearer = omega arith })
    | inr other ↦
        rw (enter_metrics, other)
          (replying-IsFresh _ _ 5 k (inr (inr (inr (inl refl)))) (omega arith))
  ]

  module _ {S Fl : Type 0} (v : Service W S Fl) where
    enter_resolve-IsFresh : (g : Serving W) → IsRoute g.route → IsFresh 5 (enter_resolve v g)
    unfolding enter_resolve
    enter_resolve-IsFresh g k = elim (Bool-cases (g.request.method == str "POST")) [
      | inr other ↦
          rw (enter_resolve, other)
            (replying-IsFresh _ _ 5 k (inr (inr (inr (inl refl)))) (omega arith))
      | inl post ↦ elim (Bool-cases (authorized v.handler.auth_token g.request.authorization)) [
        | inr refused ↦
            rw (enter_resolve, post, refused)
              (replying-IsFresh _ _ 5 k (inr (inr (inl refl))) (omega arith))
        | inl admitted ↦
            rw (enter_resolve, post, admitted)
              (after_decoding-IsFresh g (v.decode v.handler.max_body_bytes g.request.body) k)
      ]
    ]

    -- The stages that a request may enter.
    pub enter-cases :
        (P : Stage W → Type 0) (o : Option Bytes) (a : Arrival W)
        → P (enter_resolve v (stamped v route_resolve a))
        → P (enter_health (stamped v route_health a))
        → P (enter_metrics (stamped v route_metrics a))
        → P (passed (v.otherwise a.request a.writer))
        → P (enter v o a)
    unfolding enter
    enter-cases P none a resolve health metrics other = other
    enter-cases P (some route) a resolve health metrics other =
        elim (Bool-cases (route == route_resolve)) [
          | inl resolves ↦ rw resolves resolve
          | inr unresolved ↦ elim (Bool-cases (route == route_health)) [
            | inl healthy ↦ rw (unresolved, healthy) health
            | inr unhealthy ↦ elim (Bool-cases (route == route_metrics)) [
              | inl scraped ↦ rw (unresolved, unhealthy, scraped) metrics
              | inr unknown ↦ rw (unresolved, unhealthy, unknown) other
            ]
          ]
        ]

    pub enter-IsFresh : (o : Option Bytes) (a : Arrival W) → IsFresh 5 (enter v o a)
    unfolding enter_health stamped
    enter-IsFresh o a =
        enter-cases (IsFresh 5) o a (enter_resolve-IsFresh (stamped v route_resolve a) (inl refl))
          (replying-IsFresh _ _ 5 (inr (inl refl)) (inl refl) (omega arith))
          (enter_metrics-IsFresh (stamped v route_metrics a) (inr (inr refl)) refl)
          (record { known = tt; uncounted = λ j. refl; nearer = omega arith })
