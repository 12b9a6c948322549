-- ===== src/Api/Serve/Totals.antt =====
-- The counters of internal/api/metrics.go after any number of requests, by internal/api/handler.go.
use consent_owner_resolver.Prelude.{
  ℕ, ◌+◌, ◌<◌, ◌^◌, ◌%◌, ◌≡◌, inl, inr, refl, sym, ap, ◌∙◌, Bool, true, false, ◌&&◌, Option, none,
  some, List, [], ◌∷◌, length, arith, Bytes, ◌==◌, eq_iff, Bool-cases, if◌then◌else◌, Result, ok,
  err, panicked,
}
use mathlib.Core.Path.{subst}
use consent_owner_resolver.Prelude.Dict.{get, get-put}
use consent_owner_resolver.Prelude.Int.{ℤ}
use consent_owner_resolver.Go.Library.{Attempt}
use consent_owner_resolver.Api.Floats.{Floats}
use consent_owner_resolver.Api.Metrics.{
  Metrics, value_of, increment, observe, duration_buckets, new_metrics,
}
use consent_owner_resolver.Api.Metrics.Counts.{total}
use consent_owner_resolver.Api.Metrics.Consistency.{
  IsConsistent, IsAscending, observe-IsConsistent, new_metrics-IsConsistent,
}
use consent_owner_resolver.Api.Handler.{HttpRequest, Decoding, Payload, Handler, Shared}
use consent_owner_resolver.Api.Serve.{ResponseWriter, Arrival, named_route, serve, serve_all}
use consent_owner_resolver.Api.Serve.Statuses.{Fails}
use consent_owner_resolver.Api.Serve.Labels.{IsRoute, Observed, Leaves, serve-Leaves}

abbrev pub is_ok : {A : Type 0} → Result A → Bool
is_ok (ok a) = true
is_ok (err e) = false
is_ok panicked = false

abbrev pub is_named : Option Bytes → Bytes → Bool
is_named none route = false
is_named (some r) route = r == route

module _ {Fl : Type 0} (fl : Floats Fl) where
  abbrev pub requests_of : Metrics Fl → Bytes → ℕ
  requests_of m route = value_of (get m.request_count route)

  pub Fails-requests_of :
      (m n : Metrics Fl) (j : Bytes) → Fails m n → requests_of n j ≡ requests_of m j
  Fails-requests_of m n j (inl same) = rw same refl
  Fails-requests_of m n j (inr (class, more)) = rw more refl

  pub Fails-IsConsistent : (m n : Metrics Fl) → Fails m n → IsConsistent fl m → IsConsistent fl n
  Fails-IsConsistent m n (inl same) h = rw same h
  Fails-IsConsistent m n (inr (class, more)) h =
      subst (IsConsistent fl) (sym more) (record { histogram = h.histogram; totals = h.totals })

  pub observe-requests_of :
      (route j : Bytes) (status : ℕ) (elapsed : ℤ) (m : Metrics Fl)
      → requests_of m route + 1 < 2 ^ 64
      → requests_of (observe fl route status elapsed m) j
        ≡ (if route == j then requests_of m j + 1 else requests_of m j)
  unfolding observe increment
  observe-requests_of route j status elapsed m fits = ground (
    arith,
    get-put m.request_count route j ((requests_of m route + 1) % 2 ^ 64),
    eq_iff route j,
    ap (get m.request_count),
  )

  -- A request that is answered counts one for its route, and nothing for any other.
  abbrev Counts : {W S : Type 0} → Option Bytes → Metrics Fl → Result W × Shared S Fl → Type 0
  Counts o m r =
      (j : Bytes)
      → IsRoute j
      → requests_of r.1.metrics j
        ≡ (if is_named o j && is_ok r.0 then requests_of m j + 1 else requests_of m j)

  pub fresh : (j : Bytes) → requests_of new_metrics j ≡ 0
  unfolding new_metrics get
  fresh j = refl

  module _ (ascending : IsAscending fl (duration_buckets fl)) where
    Observed-Counts :
        {W S : Type 0} (route : Bytes) (elapsed : ℤ) (m : Metrics Fl) (r : Result W × Shared S Fl)
        → requests_of m route + 1 < 2 ^ 64
        → Observed fl route elapsed m r
        → IsConsistent fl m
        → Counts (some route) m r × IsConsistent fl r.1.metrics
    Observed-Counts route elapsed m (ok w, s) fits (status, t, found) h =
        let (n, fails, seen) = found in
        let room : requests_of n route + 1 < 2 ^ 64 = rw (Fails-requests_of m n route fails) fits in
        (
          λ j known.
              ap (λ x. requests_of x j) seen
              ∙ observe-requests_of route j status elapsed n room
              ∙ rw (Fails-requests_of m n j fails) (ground arith),
          subst (IsConsistent fl) (sym seen) (
              observe-IsConsistent fl ascending route status elapsed n room
                (Fails-IsConsistent m n fails h)),
        )
    Observed-Counts route elapsed m (err e, s) fits fails h = (
      λ j known. Fails-requests_of m s.metrics j fails ∙ ground arith,
      Fails-IsConsistent m s.metrics fails h,
    )
    Observed-Counts route elapsed m (panicked, s) fits fails h = (
      λ j known. Fails-requests_of m s.metrics j fails ∙ ground arith,
      Fails-IsConsistent m s.metrics fails h,
    )

    HasRoom : ℕ → Metrics Fl → Type 0
    HasRoom n m = (j : Bytes) → IsRoute j → requests_of m j + n < 2 ^ 64

    Leaves-Counts :
        {W S : Type 0} (o : Option Bytes) (elapsed : ℤ) (m : Metrics Fl)
        (r : Result W × Shared S Fl)
        → HasRoom 1 m
        → Leaves fl o elapsed m r
        → IsConsistent fl m
        → Counts o m r × IsConsistent fl r.1.metrics
    unfolding HasRoom
    Leaves-Counts none elapsed m r room same h =
        (λ j known. ap (λ n. requests_of n j) same, subst (IsConsistent fl) (sym same) h)
    Leaves-Counts (some route) elapsed m r room (inl (known, seen)) h =
        Observed-Counts route elapsed m r (room route known) seen h
    Leaves-Counts (some route) elapsed m r room (inr (unknown, same)) h = (
      λ j known. elim (Bool-cases (route == j)) [
        | inl named ↦ absurd (unknown (subst IsRoute (sym ((eq_iff route j).0 named)) known))
        | inr other ↦ rw other (ap (λ n. requests_of n j) same)
      ],
      subst (IsConsistent fl) (sym same) h,
    )

    module _ {W S : Type 0} (writer : ResponseWriter W) (encode : Payload → Attempt Bytes)
        (quote digest : Bytes → Bytes) (decode : ℤ → Bytes → Decoding) (h : Handler S)
        (mux : List Bytes → Bytes → Option Bytes) (otherwise : HttpRequest → W → W) where
      unfoldable pub answer : Arrival W → Shared S Fl → Result W × Shared S Fl
      answer a s = serve writer encode quote fl digest decode h mux otherwise a s

      unfoldable pub is_answered : Bytes → Arrival W → Shared S Fl → Bool
      unfolding answer
      is_answered route a s = is_named (named_route mux a) route && is_ok (answer a s).0

      -- How many of the requests, served one after the other, are for the route and get an answer.
      unfoldable pub answered : Bytes → List (Arrival W) → Shared S Fl → ℕ
      unfolding answer is_answered
      answered route [] s = 0
      answered route (a ∷ arrivals) s =
          let rest = answered route arrivals (answer a s).1 in
          if is_answered route a s then rest + 1 else rest

      Tallied : List (Arrival W) → Shared S Fl → Shared S Fl → Type 0
      unfolding answered
      Tallied arrivals s t =
          IsConsistent fl t.metrics
          × ((j : Bytes)
              → IsRoute j
              → requests_of t.metrics j ≡ requests_of s.metrics j + answered j arrivals s)

      serve_all-Tallied :
          (arrivals : List (Arrival W)) (s : Shared S Fl)
          → HasRoom (length arrivals) s.metrics
          → IsConsistent fl s.metrics
          → Tallied arrivals s
              (serve_all writer encode quote fl digest decode h mux otherwise arrivals s)
      unfolding serve_all Tallied HasRoom
      serve_all-Tallied [] s room consistent = (consistent, λ j known. omega arith)
      serve_all-Tallied (a ∷ arrivals) s room consistent =
          let (counts, next) =
            Leaves-Counts _ a.elapsed s.metrics (answer a s)
              (λ j known. omega (arith, room j known))
              (serve-Leaves fl writer encode quote digest decode h mux otherwise a s) consistent in
          let (last, sums) =
            serve_all-Tallied arrivals (answer a s).1
              (λ j known. ground (arith, room j known, counts j known)) next in
          (last, λ j known. ground (arith, sums j known, counts j known))

      -- With bounds of the buckets that ascend, after fewer than 2 ^ 64 requests from the start: the
      -- counters are consistent, and those of a route, over all statuses, add up to the number of its
      -- requests that were answered.
      pub serve_all-counts :
          (arrivals : List (Arrival W)) (facade : S) (log : List Bytes) (route : Bytes)
          → length arrivals < 2 ^ 64
          → IsRoute route
          → let s : Shared S Fl = record { facade = facade; metrics = new_metrics; log = log } in
            let t = serve_all writer encode quote fl digest decode h mux otherwise arrivals s in
            IsConsistent fl t.metrics × (total route t.metrics.requests ≡ answered route arrivals s)
      unfolding Tallied HasRoom
      serve_all-counts arrivals facade log route few known =
          let s : Shared S Fl = record { facade = facade; metrics = new_metrics; log = log } in
          let (consistent, sums) =
            serve_all-Tallied arrivals s (λ j k. omega (arith, fresh j, few))
              (new_metrics-IsConsistent fl) in
          (consistent, consistent.totals route ∙ sums route known ∙ omega (arith, fresh route))
