-- ===== src/Api/Metrics.antt =====
-- internal/api/metrics.go: the counters of requests and of failures, and the histogram of durations.
-- Counters have 64 bits.
pub mod Bounds
pub mod Counts
pub mod Consistency
pub mod Exposition
pub mod Abstract
pub mod Orders
use consent_owner_resolver.Prelude.{
  ℕ, suc, ◌+◌, ◌%◌, ◌^◌, Bool, true, false, ◌&&◌, not, Option, none, some, List, [], ◌∷◌, map,
  Bytes, str, ◌==◌, eqb, leb, length, if◌then◌else◌,
}
use consent_owner_resolver.Prelude.Dict.{Dict, get, put}
use consent_owner_resolver.Prelude.Int.{ℤ}
use consent_owner_resolver.Api.Floats.{Floats}

abbrev pub max_failure_classes : ℕ
max_failure_classes = 64

abbrev pub failure_class_overflow : Bytes
failure_class_overflow = str "other"

abbrev pub value_of : Option ℕ → ℕ
value_of none = 0
value_of (some n) = n

abbrev pub is_known : Option ℕ → Bool
is_known none = false
is_known (some n) = true

-- `m.failures[class]++`
unfoldable pub increment : Dict ℕ → Bytes → Dict ℕ
increment failures class = put failures class ((value_of (get failures class) + 1) % 2 ^ 64)

unfoldable pub observe_failure : Bytes → Dict ℕ → Dict ℕ
unfolding increment
observe_failure class failures =
    if not (is_known (get failures class)) && leb max_failure_classes (length failures)
    then increment failures failure_class_overflow
    else increment failures class

pub record RequestKey : Type 0 where
  pub route : Bytes
  pub status : ℕ

unfoldable pub same_key : RequestKey → RequestKey → Bool
same_key a b = a.route == b.route && eqb a.status b.status

-- `m.requests[key]++`, on an association list with one entry for each key.
unfoldable pub count_request : RequestKey → List (RequestKey × ℕ) → List (RequestKey × ℕ)
unfolding same_key
count_request key [] = (key, 1) ∷ []
count_request key ((k, n) ∷ requests) =
    if same_key k key then (k, (n + 1) % 2 ^ 64) ∷ requests else (k, n) ∷ count_request key requests

pub record Metrics (Fl : Type 0) : Type 0 where
  pub requests : List (RequestKey × ℕ)
  pub failures : Dict ℕ
  pub bucket_counts : Dict (List ℕ)
  pub duration_sum : Dict Fl
  pub request_count : Dict ℕ

module _ {Fl : Type 0} where
  unfoldable pub new_metrics : Metrics Fl
  new_metrics = record {
    requests = [];
    failures = [];
    bucket_counts = [];
    duration_sum = [];
    request_count = [];
  }

  module _ (fl : Floats Fl) where
    abbrev pub bucket_literals : List Bytes
    bucket_literals =
        str "0.001"
        ∷ str "0.005"
        ∷ str "0.01"
        ∷ str "0.025"
        ∷ str "0.05"
        ∷ str "0.1"
        ∷ str "0.25"
        ∷ str "0.5"
        ∷ str "1"
        ∷ str "2.5"
        ∷ str "5"
        ∷ str "10"
        ∷ []

    unfoldable pub duration_buckets : List Fl
    duration_buckets = map fl.literal bucket_literals

    unfoldable pub sum_of : Option Fl → Fl
    sum_of none = fl.literal (str "0")
    sum_of (some x) = x

    -- `make([]uint64, n)`
    unfoldable pub zeros : List Fl → List ℕ
    zeros [] = []
    zeros (bound ∷ bounds) = 0 ∷ zeros bounds

    -- The counts of a route, made on first use.
    unfoldable pub counts_of : Option (List ℕ) → List ℕ
    unfolding zeros duration_buckets
    counts_of none = zeros duration_buckets
    counts_of (some counts) = counts

    -- The loop over the bounds; a route's counts are as many.
    unfoldable pub bump : Fl → List Fl → List ℕ → List ℕ
    bump seconds [] counts = counts
    bump seconds (bound ∷ bounds) [] = []
    bump seconds (bound ∷ bounds) (n ∷ counts) =
        (if fl.at_most seconds bound then (n + 1) % 2 ^ 64 else n) ∷ bump seconds bounds counts

    -- `observe`.
    unfoldable pub observe : Bytes → ℕ → ℤ → Metrics Fl → Metrics Fl
    unfolding count_request increment sum_of counts_of bump
    observe route status elapsed m =
        let seconds = fl.seconds elapsed in
        record {
          requests = count_request (record { route = route; status = status }) m.requests;
          failures = m.failures;
          bucket_counts =
              put m.bucket_counts route
                (bump seconds duration_buckets (counts_of (get m.bucket_counts route)));
          duration_sum =
              put m.duration_sum route (fl.add (sum_of (get m.duration_sum route)) seconds);
          request_count = increment m.request_count route;
        }
