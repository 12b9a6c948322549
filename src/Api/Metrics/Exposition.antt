-- ===== src/Api/Metrics/Exposition.antt =====
-- internal/api/metrics.go: the exposition of the metrics as text. The writer is a parameter: it
-- takes a line, and says why it could not.
pub mod Writes
pub mod Order
use consent_owner_resolver.Prelude.{
  ℕ, Bool, true, false, Option, none, some, List, [], ◌∷◌, ◌++◌, map, Bytes, str, ◌==◌, eqb, ltb,
  not, if◌then◌else◌,
}
use consent_owner_resolver.Prelude.Dict.{Dict, get}
use consent_owner_resolver.Prelude.Reordered.{find}
use consent_owner_resolver.Go.Strconv.{itoa}
use consent_owner_resolver.Go.Sort.{sort, less_string}
use consent_owner_resolver.Api.Floats.{Floats}
use consent_owner_resolver.Api.Metrics.{
  RequestKey, same_key, Metrics, value_of, bucket_literals, duration_buckets, sum_of,
}

abbrev pub metric_requests : Bytes
metric_requests = str "owner_resolver_requests_total"

abbrev pub metric_duration : Bytes
metric_duration = str "owner_resolver_request_duration_seconds"

abbrev pub metric_failures : Bytes
metric_failures = str "owner_resolver_resolve_failures_total"

-- `sortedKeys`.
unfoldable pub sorted_keys : {V : Type 0} → Dict V → List Bytes
sorted_keys m = sort less_string (map (λ e. e.0) m)

-- The comparison of `sortedRequestKeys`.
unfoldable pub less_key : RequestKey → RequestKey → Bool
less_key a b =
    if not (a.route == b.route) then less_string a.route b.route else ltb a.status b.status

unfoldable pub sorted_request_keys : List (RequestKey × ℕ) → List RequestKey
unfolding less_key
sorted_request_keys m = sort less_key (map (λ e. e.0) m)

-- A line break.
abbrev line : Bytes → Bytes
line text = text ++ 10 ∷ []

unfoldable pub headings : Bytes → Bytes → Bytes → List Bytes
headings name help kind =
    line (str "# HELP " ++ name ++ str " " ++ help)
    ∷ line (str "# TYPE " ++ name ++ str " " ++ kind)
    ∷ []

-- The lines of a loop, one pass after the other.
unfoldable pub each : {A : Type 0} → (A → List Bytes) → List A → List Bytes
each f [] = []
each f (x ∷ xs) = f x ++ each f xs

module _ (quote : Bytes → Bytes) where
  unfoldable pub request_line : List (RequestKey × ℕ) → RequestKey → List Bytes
  request_line requests key =
      line (
        metric_requests
        ++ str "{route="
        ++ quote key.route
        ++ str ",status="
        ++ quote (itoa key.status)
        ++ str "} "
        ++ itoa (value_of (find same_key requests key)))
      ∷ []

  unfoldable pub failure_lines : Dict ℕ → Bytes → List Bytes
  failure_lines failures class =
      line (
        metric_failures
        ++ str "{class="
        ++ quote class
        ++ str "} "
        ++ itoa (value_of (get failures class)))
      ∷ []

  module _ {Fl : Type 0} (fl : Floats Fl) where
    -- The loop over the bounds; a route's counts are as many.
    unfoldable pub bucket_lines : Bytes → List Fl → List ℕ → List Bytes
    bucket_lines route [] counts = []
    bucket_lines route (bound ∷ bounds) [] = []
    bucket_lines route (bound ∷ bounds) (n ∷ counts) =
        line (
          metric_duration
          ++ str "_bucket{route="
          ++ quote route
          ++ str ",le="
          ++ quote (fl.format bound)
          ++ str "} "
          ++ itoa n)
        ∷ bucket_lines route bounds counts

    -- A route without counts has none.
    unfoldable pub listed : Option (List ℕ) → List ℕ
    listed none = []
    listed (some counts) = counts

    unfoldable pub duration_lines : Metrics Fl → Bytes → List Bytes
    unfolding bucket_lines listed sum_of
    duration_lines m route =
        bucket_lines route (duration_buckets fl) (listed (get m.bucket_counts route))
        ++ line (
            metric_duration
            ++ str "_bucket{route="
            ++ quote route
            ++ str ",le="
            ++ (b'"' ∷ [])
            ++ str "+Inf"
            ++ (b'"' ∷ [])
            ++ str "} "
            ++ itoa (value_of (get m.request_count route)))
          ∷ line (
              metric_duration
              ++ str "_sum{route="
              ++ quote route
              ++ str "} "
              ++ fl.format (sum_of fl (get m.duration_sum route)))
          ∷ line (
              metric_duration
              ++ str "_count{route="
              ++ quote route
              ++ str "} "
              ++ itoa (value_of (get m.request_count route)))
          ∷ []

    -- What `writeTo` prints, line by line.
    unfoldable pub exposition : Metrics Fl → List Bytes
    unfolding headings each request_line duration_lines failure_lines
    exposition m =
        headings metric_requests (str "Responses served, by route and status code.") (str "counter")
        ++ each (request_line m.requests) (sorted_request_keys m.requests)
        ++ headings metric_duration (str "Request duration in seconds, by route.") (str "histogram")
        ++ each (duration_lines m) (sorted_keys m.bucket_counts)
        ++ headings metric_failures (str "Resolve failures, by error class.") (str "counter")
        ++ each (failure_lines m.failures) (sorted_keys m.failures)

pub record MetricsWriter (W : Type 0) : Type 0 where
  pub w : W
  pub failure : Option Bytes

module _ {W : Type 0} (write : Bytes → W → Option Bytes × W) where
  unfoldable pub print : Bytes → MetricsWriter W → MetricsWriter W
  print text mw = elim mw.failure [
    | some e ↦ mw
    | none ↦ let (failure, w) = write text mw.w in record { w = w; failure = failure }
  ]

  unfoldable pub print_all : List Bytes → MetricsWriter W → MetricsWriter W
  unfolding print
  print_all [] mw = mw
  print_all (text ∷ texts) mw = print_all texts (print text mw)

  -- `writeTo`: the first write error, and the writer behind it.
  unfoldable pub write_to :
      (Bytes → Bytes) → {Fl : Type 0} → Floats Fl → Metrics Fl → W → Option Bytes × W
  unfolding print_all exposition
  write_to quote fl m w =
      let mw = print_all (exposition quote fl m) (record { w = w; failure = none }) in
      (mw.failure, mw.w)
