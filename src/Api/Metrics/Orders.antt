-- ===== src/Api/Metrics/Orders.antt =====
-- Runs of the operations of internal/api/metrics.go on metrics whose maps are iterated in different
-- orders.
use consent_owner_resolver.Prelude.{
  ℕ, ◌+◌, ◌%◌, ◌^◌, ◌≡◌, refl, sym, ◌∙◌, Bool, ◌&&◌, not, Option, List, [], ◌∷◌, arith, Bytes, ◌==◌,
  eq_iff, leb, length, Bool-cases, inl, inr,
}
use consent_owner_resolver.Prelude.Dict.{Dict, get}
use consent_owner_resolver.Prelude.Int.{ℤ}
use consent_owner_resolver.Prelude.Reordered.{Reordered, none_left, same_head, exchange, two_steps}
use consent_owner_resolver.Prelude.Alter.{alter-IsTable, alter-Reordered, put-alter}
use consent_owner_resolver.Api.Floats.{Floats}
use consent_owner_resolver.Api.Metrics.{
  value_of, is_known, increment, observe_failure, Metrics, observe, max_failure_classes,
  failure_class_overflow,
}
use consent_owner_resolver.Api.Metrics.Exposition.{exposition}
use consent_owner_resolver.Api.Metrics.Exposition.Order.{
  SameDict, SameMetrics, get-SameDict, exposition-SameMetrics,
}
use consent_owner_resolver.Api.Metrics.Abstract.{observe-SameMetrics}

-- What changes the metrics: a response of a route, and a failure of a class.
pub data Event : Type 0 where
  response : Bytes → ℕ → ℤ → Event
  failure : Bytes → Event

length-Reordered : {A : Type 0} {l r : List A} → Reordered l r → length l ≡ length r
length-Reordered none_left = refl
length-Reordered (same_head a d) = omega (arith, length-Reordered d)
length-Reordered (exchange a b l) = refl
length-Reordered (two_steps d e) = length-Reordered d ∙ length-Reordered e

increment-SameDict :
    (d e : Dict ℕ) (class : Bytes) → SameDict d e → SameDict (increment d class) (increment e class)
unfolding increment
increment-SameDict d e class h =
    let f : Option ℕ → ℕ = λ o. (value_of o + 1) % 2 ^ 64 in
    rw (put-alter f d class, put-alter f e class)
      (alter-IsTable ◌==◌ eq_iff f d class h.0, alter-Reordered ◌==◌ eq_iff f class h.1 h.0)

abbrev is_full : Dict ℕ → Bytes → Bool
is_full d class = not (is_known (get d class)) && leb max_failure_classes (length d)

is_full-SameDict : (d e : Dict ℕ) (class : Bytes) → SameDict d e → is_full d class ≡ is_full e class
is_full-SameDict d e class h = rw (get-SameDict d e h class, length-Reordered h.1) refl

observe_failure-SameDict :
    (d e : Dict ℕ) (class : Bytes)
    → SameDict d e
    → SameDict (observe_failure class d) (observe_failure class e)
unfolding observe_failure
observe_failure-SameDict d e class h = elim (Bool-cases (is_full d class)) [
  | inl full ↦
      rw (full, sym (is_full-SameDict d e class h) ∙ full)
        (increment-SameDict d e failure_class_overflow h)
  | inr room ↦ rw (room, sym (is_full-SameDict d e class h) ∙ room) (increment-SameDict d e class h)
]

module _ {Fl : Type 0} (fl : Floats Fl) where
  unfoldable pub record_event : Event → Metrics Fl → Metrics Fl
  unfolding observe observe_failure
  record_event (response route status elapsed) m = observe fl route status elapsed m
  record_event (failure class) m = record m { failures = observe_failure class m.failures }

  unfoldable pub record_events : List Event → Metrics Fl → Metrics Fl
  unfolding record_event
  record_events [] m = m
  record_events (e ∷ events) m = record_events events (record_event e m)

  record_event-SameMetrics :
      (e : Event) (m n : Metrics Fl)
      → SameMetrics m n
      → SameMetrics (record_event e m) (record_event e n)
  unfolding record_event
  record_event-SameMetrics (response route status elapsed) m n h =
      observe-SameMetrics fl route status elapsed m n h
  record_event-SameMetrics (failure class) m n h = record {
    requests = h.requests;
    failures = observe_failure-SameDict m.failures n.failures class h.failures;
    bucket_counts = h.bucket_counts;
    duration_sum = h.duration_sum;
    request_count = h.request_count;
  }

  -- Whatever responses and failures are counted: metrics that differ in the order alone in which Go
  -- iterates over their maps are exposed alike behind them.
  pub record_events-exposition :
      (quote : Bytes → Bytes) (events : List Event) (m n : Metrics Fl)
      → SameMetrics m n
      → exposition quote fl (record_events events m) ≡ exposition quote fl (record_events events n)
  unfolding record_events
  record_events-exposition quote [] m n h = exposition-SameMetrics quote fl m n h
  record_events-exposition quote (e ∷ events) m n h =
      record_events-exposition quote events (record_event e m) (record_event e n)
        (record_event-SameMetrics e m n h)
