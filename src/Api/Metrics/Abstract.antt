-- ===== src/Api/Metrics/Abstract.antt =====
-- The metrics of internal/api/metrics.go up to the orders in which Go iterates over their maps: a
-- quotient, on which the operations are functions.
use mathlib.Core.Quot
use mathlib.Core.Quot.{Quot, Quot-set}
use mathlib.Core.List.{is_set}
use native.Mathlib.Nat.{ℕ_set}
use consent_owner_resolver.Prelude.{
  ℕ, ◌+◌, ◌%◌, ◌^◌, ◌≡◌, ◌≢◌, refl, ap, false, Option, none, some, List, [], ◌∷◌, arith, Bytes,
  ◌==◌, eq_iff, Bool-cases, inl, inr,
}
use consent_owner_resolver.Prelude.Dict.{Dict}
use consent_owner_resolver.Prelude.Int.{ℤ}
use consent_owner_resolver.Prelude.Reordered.{IsTable}
use consent_owner_resolver.Prelude.Alter.{
  alter, Reordered-refl, alter-IsTable, alter-Reordered, alter_comm, put-alter,
}
use consent_owner_resolver.Api.Floats.{Floats}
use consent_owner_resolver.Api.Metrics.{
  RequestKey, same_key, count_request, value_of, increment, Metrics, duration_buckets, sum_of,
  counts_of, bump, observe,
}
use consent_owner_resolver.Api.Metrics.Exposition.{exposition}
use consent_owner_resolver.Api.Metrics.Exposition.Order.{
  same_key_iff, SameDict, SameMetrics, exposition-SameMetrics,
}

tick : Option ℕ → ℕ
tick none = 1
tick (some n) = (n + 1) % 2 ^ 64

count_request-alter :
    (key : RequestKey) (requests : List (RequestKey × ℕ))
    → count_request key requests ≡ alter same_key tick requests key
unfolding count_request alter tick
count_request-alter key [] = refl
count_request-alter key ((k, n) ∷ requests) = elim (Bool-cases (same_key k key)) [
  | inl here ↦ rw here refl
  | inr other ↦ rw other (ap (λ x. (k, n) ∷ x) (count_request-alter key requests))
]

module _ {Fl : Type 0} where
  -- A map has one entry for each key.
  pub record IsTables (m : Metrics Fl) : Type 0 where
    pub requests : IsTable same_key m.requests
    pub failures : IsTable ◌==◌ m.failures
    pub bucket_counts : IsTable ◌==◌ m.bucket_counts
    pub duration_sum : IsTable ◌==◌ m.duration_sum
    pub request_count : IsTable ◌==◌ m.request_count

  module _ (fl : Floats Fl) where
    -- An observation, as an update of each table.
    altered : Bytes → ℕ → ℤ → Metrics Fl → Metrics Fl
    altered route status elapsed m =
        let seconds = fl.seconds elapsed in
        record {
          requests = alter same_key tick m.requests (record { route = route; status = status });
          failures = m.failures;
          bucket_counts =
              alter ◌==◌ (λ o. bump fl seconds (duration_buckets fl) (counts_of fl o))
                m.bucket_counts route;
          duration_sum = alter ◌==◌ (λ o. fl.add (sum_of fl o) seconds) m.duration_sum route;
          request_count = alter ◌==◌ (λ o. (value_of o + 1) % 2 ^ 64) m.request_count route;
        }

    observe-altered :
        (route : Bytes) (status : ℕ) (elapsed : ℤ) (m : Metrics Fl)
        → observe fl route status elapsed m ≡ altered route status elapsed m
    unfolding observe altered increment
    observe-altered route status elapsed m =
        rw
          (
            count_request-alter (record { route = route; status = status }) m.requests,
            put-alter (λ o. bump fl (fl.seconds elapsed) (duration_buckets fl) (counts_of fl o))
                m.bucket_counts route,
            put-alter (λ o. fl.add (sum_of fl o) (fl.seconds elapsed)) m.duration_sum route,
            put-alter (λ o. (value_of o + 1) % 2 ^ 64) m.request_count route,
          )
          refl

    altered-IsTables :
        (route : Bytes) (status : ℕ) (elapsed : ℤ) (m : Metrics Fl)
        → IsTables m
        → IsTables (altered route status elapsed m)
    unfolding altered
    altered-IsTables route status elapsed m h = record {
      requests = alter-IsTable same_key same_key_iff tick m.requests _ h.requests;
      failures = h.failures;
      bucket_counts = alter-IsTable ◌==◌ eq_iff _ m.bucket_counts route h.bucket_counts;
      duration_sum = alter-IsTable ◌==◌ eq_iff _ m.duration_sum route h.duration_sum;
      request_count = alter-IsTable ◌==◌ eq_iff _ m.request_count route h.request_count;
    }

    altered-SameMetrics :
        (route : Bytes) (status : ℕ) (elapsed : ℤ) (m n : Metrics Fl)
        → SameMetrics m n
        → SameMetrics (altered route status elapsed m) (altered route status elapsed n)
    unfolding altered
    altered-SameMetrics route status elapsed m n h = record {
      requests = (
        alter-IsTable same_key same_key_iff tick m.requests _ h.requests.0,
        alter-Reordered same_key same_key_iff tick _ h.requests.1 h.requests.0,
      );
      failures = h.failures;
      bucket_counts = updated _ h.bucket_counts;
      duration_sum = updated _ h.duration_sum;
      request_count = updated _ h.request_count;
    }
      where
        updated :
            {V : Type 0} {d e : Dict V} (f : Option V → V)
            → SameDict d e
            → SameDict (alter ◌==◌ f d route) (alter ◌==◌ f e route)
        updated {d = d} f h =
            (alter-IsTable ◌==◌ eq_iff f d route h.0, alter-Reordered ◌==◌ eq_iff f route h.1 h.0)

    -- Two observations of different routes, in either order.
    altered_comm :
        (a b : Bytes) (s t : ℕ) (d e : ℤ) (m : Metrics Fl)
        → (a == b) ≡ false
        → IsTables m
        → SameMetrics (altered a s d (altered b t e m)) (altered b t e (altered a s d m))
    unfolding altered same_key
    altered_comm a b s t d e m apart h =
        let first = altered-IsTables b t e m h in
        let both = altered-IsTables a s d (altered b t e m) first in
        record {
          requests = (
            both.requests,
            alter_comm same_key same_key_iff tick tick _ _ m.requests (rw apart refl),
          );
          failures = (h.failures, Reordered-refl m.failures);
          bucket_counts =
              (both.bucket_counts, alter_comm ◌==◌ eq_iff _ _ a b m.bucket_counts apart);
          duration_sum = (both.duration_sum, alter_comm ◌==◌ eq_iff _ _ a b m.duration_sum apart);
          request_count =
              (both.request_count, alter_comm ◌==◌ eq_iff _ _ a b m.request_count apart);
        }

-- Metrics whose maps have one entry for each key.
abbrev pub Tabled : Type 0 → Type 0
Tabled Fl = (m : Metrics Fl) × IsTables m

abbrev pub Same : {Fl : Type 0} → Tabled Fl → Tabled Fl → Type 0
Same x y = SameMetrics x.0 y.0

-- The metrics, without the orders of their maps.
abbrev pub AbstractMetrics : Type 0 → Type 0
AbstractMetrics Fl = Quot (Same {Fl = Fl})

pub abstract : {Fl : Type 0} → Tabled Fl → AbstractMetrics Fl
abstract x = Quot.mk x

module _ {Fl : Type 0} (fl : Floats Fl) where
  pub observe-IsTables :
      (route : Bytes) (status : ℕ) (elapsed : ℤ) (m : Metrics Fl)
      → IsTables m
      → IsTables (observe fl route status elapsed m)
  observe-IsTables route status elapsed m h =
      rw (observe-altered fl route status elapsed m) (altered-IsTables fl route status elapsed m h)

  pub observe-SameMetrics :
      (route : Bytes) (status : ℕ) (elapsed : ℤ) (m n : Metrics Fl)
      → SameMetrics m n
      → SameMetrics (observe fl route status elapsed m) (observe fl route status elapsed n)
  observe-SameMetrics route status elapsed m n h =
      rw (observe-altered fl route status elapsed m, observe-altered fl route status elapsed n)
        (altered-SameMetrics fl route status elapsed m n h)

  observe_comm :
      (a b : Bytes) (s t : ℕ) (d e : ℤ) (m : Metrics Fl)
      → (a == b) ≡ false
      → IsTables m
      → SameMetrics (observe fl a s d (observe fl b t e m)) (observe fl b t e (observe fl a s d m))
  observe_comm a b s t d e m apart h =
      rw
        (
          observe-altered fl b t e m,
          observe-altered fl a s d m,
          observe-altered fl a s d (altered fl b t e m),
          observe-altered fl b t e (altered fl a s d m),
        )
        (altered_comm fl a b s t d e m apart h)

  -- `observe`, on the metrics without their orders.
  unfoldable pub observed : Bytes → ℕ → ℤ → AbstractMetrics Fl → AbstractMetrics Fl
  observed route status elapsed =
      Quot.lift Quot-set
        (λ x.
          Quot.mk
            (observe fl route status elapsed x.0, observe-IsTables route status elapsed x.0 x.1))
        (λ x y h. Quot.sound (observe-SameMetrics route status elapsed x.0 y.0 h))

  -- The exposition of metrics without their orders.
  unfoldable pub exposed : (Bytes → Bytes) → AbstractMetrics Fl → List Bytes
  exposed quote =
      Quot.lift (is_set (is_set ℕ_set)) (λ x. exposition quote fl x.0)
        (λ x y h. exposition-SameMetrics quote fl x.0 y.0 h)

  -- Requests of two different routes are observed in either order, and no scrape tells which it was.
  pub observed_comm :
      (a b : Bytes) (s t : ℕ) (d e : ℤ)
      → a ≢ b
      → (q : AbstractMetrics Fl)
      → observed a s d (observed b t e q) ≡ observed b t e (observed a s d q)
  unfolding observed
  observed_comm a b s t d e differ =
      Quot.ind (λ q. Quot-set _ _)
        (λ x.
          Quot.sound
            {a = (
              observe fl a s d (observe fl b t e x.0),
              observe-IsTables a s d _ (observe-IsTables b t e x.0 x.1),
            )}
            {b = (
              observe fl b t e (observe fl a s d x.0),
              observe-IsTables b t e _ (observe-IsTables a s d x.0 x.1),
            )}
            (observe_comm a b s t d e x.0 apart x.1))
    where
      apart : (a == b) ≡ false
      apart = ground (arith, eq_iff a b, differ)

  -- Of metrics whose maps have one entry for each key: requests of two different routes may be observed
  -- in either order, and whatever order the maps are iterated in, a scrape does not show which it was.
  pub exposition_comm :
      (quote : Bytes → Bytes) (a b : Bytes) (s t : ℕ) (d e : ℤ) (m : Metrics Fl)
      → IsTables m
      → a ≢ b
      → exposition quote fl (observe fl a s d (observe fl b t e m))
        ≡ exposition quote fl (observe fl b t e (observe fl a s d m))
  unfolding exposed observed abstract
  exposition_comm quote a b s t d e m h differ =
      ap (exposed quote) (observed_comm a b s t d e differ (abstract (m, h)))
