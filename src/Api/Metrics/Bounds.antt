-- ===== src/Api/Metrics/Bounds.antt =====
-- Laws of observeFailure in internal/api/metrics.go.
use consent_owner_resolver.Prelude.{
  ℕ, suc, ◌+◌, ◌≤◌, ◌%◌, ◌^◌, ◌≡◌, ◌⊎◌, inl, inr, refl, true, ◌&&◌, not, [], ◌∷◌, arith, Bytes,
  ◌==◌, eq_iff, leb, length, Bool-cases, if◌then◌else◌,
}
use consent_owner_resolver.Prelude.Dict.{Dict, get, put, get-put}
use consent_owner_resolver.Api.Metrics.{
  max_failure_classes, failure_class_overflow, value_of, is_known, increment, observe_failure,
}

-- At most 64 labels, or one more if it is the label of the overflow.
abbrev pub IsBounded : Dict ℕ → Type 0
IsBounded failures =
    (length failures ≤ max_failure_classes)
    ⊎ ((length failures ≡ suc max_failure_classes)
        × (is_known (get failures failure_class_overflow) ≡ true))

length-put :
    (d : Dict ℕ) (k : Bytes) (v : ℕ)
    → length (put d k v) ≡ (if is_known (get d k) then length d else suc (length d))
unfolding put get
length-put [] k v = refl
length-put ((j, w) ∷ d) k v = ground (arith, length-put d k v)

known-put :
    (d : Dict ℕ) (k j : Bytes) (v : ℕ)
    → is_known (get (put d k v) j) ≡ (if k == j then true else is_known (get d j))
known-put d k j v = rw get-put (ground arith)

increment-IsBounded :
    (d : Dict ℕ) (k : Bytes)
    → (is_known (get d k) ≡ true)
      ⊎ (suc (length d) ≤ max_failure_classes)
      ⊎ (k ≡ failure_class_overflow)
    → IsBounded d
    → IsBounded (increment d k)
unfolding increment
increment-IsBounded d k fits h = ground (
  arith,
  length-put d k ((value_of (get d k) + 1) % 2 ^ 64),
  known-put d k failure_class_overflow ((value_of (get d k) + 1) % 2 ^ 64),
  eq_iff k failure_class_overflow,
)

-- The number of labels stays bounded, whatever classes are observed.
pub observe_failure-IsBounded :
    (class : Bytes) (failures : Dict ℕ)
    → IsBounded failures
    → IsBounded (observe_failure class failures)
unfolding observe_failure
observe_failure-IsBounded class failures h = elim (Bool-cases (is_known (get failures class))) [
  | inl known ↦ rw known (increment-IsBounded failures class (inl known) h)
  | inr new ↦ elim (Bool-cases (leb max_failure_classes (length failures))) [
    | inl full ↦
        rw (new, full) (increment-IsBounded failures failure_class_overflow (inr (inr refl)) h)
    | inr fits ↦ rw (new, fits) (increment-IsBounded failures class (inr (inl (ground arith))) h)
  ]
]

counted :
    (d : Dict ℕ) (k j : Bytes)
    → value_of (get (increment d k) j)
      ≡ (if k == j then (value_of (get d k) + 1) % 2 ^ 64 else value_of (get d j))
unfolding increment
counted d k j = rw get-put (ground arith)

-- An observation counts once, under its class or, beyond the bound, under the overflow: that counter
-- goes up by one, modulo 2 ^ 64, and every other counter stays.
pub observe_failure-counts :
    (class : Bytes) (failures : Dict ℕ)
    → (label : Bytes) × ((label ≡ class) ⊎ (label ≡ failure_class_overflow))
      × ((j : Bytes)
          → value_of (get (observe_failure class failures) j) ≡ (
              if label == j
              then (value_of (get failures label) + 1) % 2 ^ 64
              else value_of (get failures j)))
unfolding observe_failure
observe_failure-counts class failures =
    elim (Bool-cases
      (not (is_known (get failures class)) && leb max_failure_classes (length failures))) [
        | inl full ↦ (
          failure_class_overflow,
          inr refl,
          λ j. rw full (counted failures failure_class_overflow j),
        )
        | inr fits ↦ (class, inl refl, λ j. rw fits (counted failures class j))
      ]
