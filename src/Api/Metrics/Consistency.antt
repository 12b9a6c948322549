-- ===== src/Api/Metrics/Consistency.antt =====
-- What the counters of internal/api/metrics.go say about one another.
use consent_owner_resolver.Prelude.{
  ℕ, ◌+◌, ◌≤◌, ◌<◌, ◌%◌, ◌^◌, ◌≡◌, refl, true, Option, none, some, List, [], ◌∷◌, arith, Bytes,
  ◌==◌, eq_iff, length, Bool-cases, inl, inr,
}
use consent_owner_resolver.Prelude.Dict.{Dict, get, put, get-put}
use consent_owner_resolver.Prelude.Int.{ℤ}
use consent_owner_resolver.Api.Floats.{Floats}
use consent_owner_resolver.Api.Metrics.{
  Metrics, value_of, increment, duration_buckets, zeros, counts_of, bump, observe, new_metrics,
}
use consent_owner_resolver.Api.Metrics.Counts.{total, total-count_request}

-- Cumulative counts: none is above the next one, and none is above `n`.
abbrev pub IsCumulative : ℕ → List ℕ → Type 0
IsCumulative n [] = Unit
IsCumulative n (c ∷ []) = c ≤ n
IsCumulative n (c ∷ d ∷ counts) = (c ≤ d) × IsCumulative n (d ∷ counts)

module _ {Fl : Type 0} (fl : Floats Fl) where
  -- A duration within a bound is within the next one, as the bounds ascend.
  abbrev pub IsAscending : List Fl → Type 0
  IsAscending [] = Unit
  IsAscending (a ∷ []) = Unit
  IsAscending (a ∷ b ∷ bounds) =
      ((x : Fl) → fl.at_most x a ≡ true → fl.at_most x b ≡ true) × IsAscending (b ∷ bounds)

  -- The histogram of a route with `n` responses.
  abbrev pub IsHistogram : List Fl → ℕ → Option (List ℕ) → Type 0
  IsHistogram bounds n none = n ≡ 0
  IsHistogram bounds n (some counts) = (length counts ≡ length bounds) × IsCumulative n counts

  pub record IsConsistent (m : Metrics Fl) : Type 0 where
    pub histogram :
        (route : Bytes)
        → IsHistogram
            (duration_buckets fl)
            (value_of (get m.request_count route))
            (get m.bucket_counts route)
    pub totals : (route : Bytes) → total route m.requests ≡ value_of (get m.request_count route)

  bump-length :
      (x : Fl) (bounds : List Fl) (counts : List ℕ)
      → length counts ≡ length bounds
      → length (bump fl x bounds counts) ≡ length bounds
  unfolding bump
  bump-length x [] counts h = h
  bump-length x (b ∷ bounds) [] h = h
  bump-length x (b ∷ bounds) (c ∷ counts) h =
      omega (arith, bump-length x bounds counts (omega arith))

  below_first : (n c : ℕ) (counts : List ℕ) → IsCumulative n (c ∷ counts) → c ≤ n
  below_first n c [] h = h
  below_first n c (d ∷ counts) h = omega (arith, below_first n d counts h.1)

  bump-IsCumulative :
      (x : Fl) (n : ℕ) (bounds : List Fl) (counts : List ℕ)
      → IsAscending bounds
      → n + 1 < 2 ^ 64
      → length counts ≡ length bounds
      → IsCumulative n counts
      → IsCumulative (n + 1) (bump fl x bounds counts)
  unfolding bump
  bump-IsCumulative x n [] [] up fits len h = tt
  bump-IsCumulative x n [] (c ∷ counts) up fits len h = absurd (omega arith)
  bump-IsCumulative x n (a ∷ bounds) [] up fits len h = tt
  bump-IsCumulative x n (a ∷ []) (c ∷ []) up fits len h = ground arith
  bump-IsCumulative x n (a ∷ []) (c ∷ d ∷ counts) up fits len h = absurd (omega arith)
  bump-IsCumulative x n (a ∷ b ∷ bounds) (c ∷ []) up fits len h = absurd (omega arith)
  bump-IsCumulative x n (a ∷ b ∷ bounds) (c ∷ d ∷ counts) up fits len h = (
    ground (arith, up.0 x, below_first n d counts h.1),
    bump-IsCumulative x n (b ∷ bounds) (d ∷ counts) up.1 fits (omega arith) h.1,
  )

  zeros-length : (bounds : List Fl) → length (zeros fl bounds) ≡ length bounds
  unfolding zeros
  zeros-length [] = refl
  zeros-length (b ∷ bounds) = omega (arith, zeros-length bounds)

  zeros-IsCumulative : (bounds : List Fl) → IsCumulative 0 (zeros fl bounds)
  unfolding zeros
  zeros-IsCumulative [] = tt
  zeros-IsCumulative (a ∷ []) = omega arith
  zeros-IsCumulative (a ∷ b ∷ bounds) = (omega arith, zeros-IsCumulative (b ∷ bounds))

  put-IsHistogram :
      (bounds : List Fl) (route j : Bytes) (n : ℕ) (counts : List ℕ) (c : Dict ℕ)
      (d : Dict (List ℕ))
      → IsHistogram bounds n (some counts)
      → IsHistogram bounds (value_of (get c j)) (get d j)
      → IsHistogram bounds (value_of (get (put c route n) j)) (get (put d route counts) j)
  put-IsHistogram bounds route j n counts c d new old = elim (Bool-cases (route == j)) [
    | inl same ↦ rw (get-put c route j n, get-put d route j counts, same) new
    | inr other ↦ rw (get-put c route j n, get-put d route j counts, other) old
  ]

  counted_once : (n : ℕ) → n + 1 < 2 ^ 64 → (n + 1) % 2 ^ 64 ≡ n + 1
  counted_once n h = omega arith

  module _ (ascending : IsAscending (duration_buckets fl)) where
    bump-IsHistogram :
        (x : Fl) (n : ℕ) (o : Option (List ℕ))
        → n + 1 < 2 ^ 64
        → IsHistogram (duration_buckets fl) n o
        → IsHistogram
            (duration_buckets fl)
            (n + 1)
            (some (bump fl x (duration_buckets fl) (counts_of fl o)))
    unfolding counts_of
    bump-IsHistogram x n none fits h = (
      bump-length x (duration_buckets fl) (zeros fl (duration_buckets fl))
          (zeros-length (duration_buckets fl)),
      bump-IsCumulative x n (duration_buckets fl) (zeros fl (duration_buckets fl)) ascending fits
          (zeros-length (duration_buckets fl)) (rw h (zeros-IsCumulative (duration_buckets fl))),
    )
    bump-IsHistogram x n (some counts) fits h = (
      bump-length x (duration_buckets fl) counts h.0,
      bump-IsCumulative x n (duration_buckets fl) counts ascending fits h.0 h.1,
    )

    -- An observation keeps the counters consistent, while the counter of its route does not wrap
    -- around: the buckets of each route are cumulative and bounded by its number of responses, and
    -- the responses counted by status add up to that number.
    pub observe-IsConsistent :
        (route : Bytes) (status : ℕ) (elapsed : ℤ) (m : Metrics Fl)
        → value_of (get m.request_count route) + 1 < 2 ^ 64
        → IsConsistent m
        → IsConsistent (observe fl route status elapsed m)
    unfolding observe increment
    observe-IsConsistent route status elapsed m fits h = record {
      histogram = λ j.
          put-IsHistogram (duration_buckets fl) route j
            ((value_of (get m.request_count route) + 1) % 2 ^ 64)
            (bump fl (fl.seconds elapsed) (duration_buckets fl)
              (counts_of fl (get m.bucket_counts route)))
            m.request_count m.bucket_counts
            (rw (counted_once (value_of (get m.request_count route)) fits) (
              bump-IsHistogram (fl.seconds elapsed) (value_of (get m.request_count route))
                (get m.bucket_counts route) fits (h.histogram route)))
            (h.histogram j);
      totals = λ j. ground (
        arith,
        total-count_request j (record { route = route; status = status }) m.requests,
        get-put m.request_count route j ((value_of (get m.request_count route) + 1) % 2 ^ 64),
        h.totals route,
        h.totals j,
        eq_iff route j,
      );
    }

pub new_metrics-IsConsistent : {Fl : Type 0} (fl : Floats Fl) → IsConsistent fl new_metrics
unfolding new_metrics get total
new_metrics-IsConsistent fl = record { histogram = λ route. refl; totals = λ route. refl }
