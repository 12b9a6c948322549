-- ===== src/Api/Metrics/Exposition/Order.antt =====
-- The order of the exposition of internal/api/metrics.go.
use mathlib.Core.List.{Perm}
use mathlib.Core.Path.{ap₂}
use consent_owner_resolver.Prelude.{
  ℕ, ◌≡◌, ◌↔◌, refl, sym, ap, ◌∙◌, true, false, List, [], ◌∷◌, ◌++◌, map, arith, Bytes, ◌==◌,
  eq_iff, eq_refl, eqb_iff, ltb, if◌then◌else◌, Bool-cases, inl, inr, and-true,
}
use consent_owner_resolver.Prelude.Dict.{Dict, get}
use consent_owner_resolver.Prelude.Reordered.{
  Reordered, Reordered-map, IsTable, find-Reordered, get-find,
}
use consent_owner_resolver.Go.Sort.{less_string}
use consent_owner_resolver.Go.Sort.Laws.{
  IsSorted, IsOrder, sort-perm, sort-IsSorted, less_string-IsOrder, less_string_antisymm,
}
use consent_owner_resolver.Go.Sort.Stable.{sort-Reordered}
use consent_owner_resolver.Api.Floats.{Floats}
use consent_owner_resolver.Api.Metrics.{RequestKey, same_key, Metrics}
use consent_owner_resolver.Api.Metrics.Exposition.{
  less_key, sorted_keys, sorted_request_keys, each, request_line, failure_lines, duration_lines,
  exposition,
}

pub same_key_iff : (a b : RequestKey) → (same_key a b ≡ true) ↔ (a ≡ b)
unfolding same_key
same_key_iff a b = (
  λ h.
      let (routes, statuses) = and-true _ _ h in
      ap₂ (λ r s. record { route = r; status = s }) ((eq_iff a.route b.route).0 routes)
        ((eqb_iff a.status b.status).0 statuses),
  λ e. rw e (ground (arith, eq_refl b.route)),
)

irreflexive : (s : Bytes) → less_string s s ≡ false
irreflexive s = elim (Bool-cases (less_string s s)) [
  | inl less ↦ less_string-IsOrder.asym s s less
  | inr not_less ↦ not_less
]

key_parts :
    (a b : RequestKey)
    → less_key a b ≡ (
        if less_string a.route b.route
        then true
        else if less_string b.route a.route
        then false
        else ltb a.status b.status)
unfolding less_key
key_parts a b = ground (
  arith,
  eq_iff a.route b.route,
  irreflexive a.route,
  ap (less_string a.route),
  less_string_antisymm a.route b.route,
  less_string-IsOrder.asym a.route b.route,
)

less_key-IsOrder : IsOrder less_key
less_key-IsOrder = record {
  asym = λ a b h. ground (
    arith,
    key_parts a b,
    key_parts b a,
    less_string-IsOrder.asym a.route b.route,
    less_string-IsOrder.asym b.route a.route,
  );
  negtrans = λ a b c h k. ground (
    arith,
    key_parts b a,
    key_parts c b,
    key_parts c a,
    less_string-IsOrder.asym a.route b.route,
    less_string-IsOrder.asym b.route c.route,
    less_string-IsOrder.asym a.route c.route,
    less_string-IsOrder.negtrans a.route b.route c.route,
    less_string-IsOrder.negtrans c.route b.route a.route,
    less_string-IsOrder.negtrans b.route a.route c.route,
    less_string-IsOrder.negtrans b.route c.route a.route,
    less_string-IsOrder.negtrans a.route c.route b.route,
    less_string-IsOrder.negtrans c.route a.route b.route,
  );
}

less_key_antisymm : (a b : RequestKey) → less_key a b ≡ false → less_key b a ≡ false → a ≡ b
unfolding same_key
less_key_antisymm a b h k = (same_key_iff a b).0 (
    ground (
      arith,
      key_parts a b,
      key_parts b a,
      less_string_antisymm a.route b.route,
      eq_iff a.route b.route,
      irreflexive a.route,
    ))

-- The counters of requests are exposed by route, and those of a route by status: the keys are sorted
-- so, and they are those of the table.
pub sorted_request_keys-sorts :
    (requests : List (RequestKey × ℕ))
    → IsSorted less_key (sorted_request_keys requests)
      × Perm (sorted_request_keys requests) (map (λ e. e.0) requests)
unfolding sorted_request_keys
sorted_request_keys-sorts requests = (
  sort-IsSorted less_key less_key-IsOrder (map (λ e. e.0) requests),
  sort-perm less_key (map (λ e. e.0) requests),
)

each-ext :
    {A : Type 0} {f g : A → List Bytes} {xs ys : List A}
    → ((x : A) → f x ≡ g x)
    → xs ≡ ys
    → each f xs ≡ each g ys
unfolding each
each-ext {f = f} {g = g} {xs = xs} h e = rw (sym e) (pointwise xs)
  where
    pointwise : (xs : List _) → each f xs ≡ each g xs
    pointwise [] = refl
    pointwise (x ∷ xs) = ap₂ (λ s t. s ++ t) (h x) (pointwise xs)

-- The entries of a map of texts, in two orders of iteration.
abbrev pub SameDict : {V : Type 0} → Dict V → Dict V → Type 0
SameDict d e = IsTable ◌==◌ d × Reordered d e

pub get-SameDict : {V : Type 0} (d e : Dict V) → SameDict d e → (k : Bytes) → get d k ≡ get e k
get-SameDict d e h k = get-find d k ∙ (find-Reordered ◌==◌ eq_iff h.1 h.0).1 k ∙ sym (get-find e k)

sorted_keys-SameDict : {V : Type 0} (d e : Dict V) → SameDict d e → sorted_keys d ≡ sorted_keys e
unfolding sorted_keys
sorted_keys-SameDict d e h =
    sort-Reordered less_string less_string-IsOrder less_string_antisymm
      (Reordered-map (λ x. x.0) h.1)

-- The same metrics, up to the orders in which their maps are iterated.
pub record SameMetrics {Fl : Type 0} (m n : Metrics Fl) : Type 0 where
  pub requests : IsTable same_key m.requests × Reordered m.requests n.requests
  pub failures : SameDict m.failures n.failures
  pub bucket_counts : SameDict m.bucket_counts n.bucket_counts
  pub duration_sum : SameDict m.duration_sum n.duration_sum
  pub request_count : SameDict m.request_count n.request_count

module _ (quote : Bytes → Bytes) {Fl : Type 0} (fl : Floats Fl) (m n : Metrics Fl)
    (h : SameMetrics m n) where
  request_lines_same :
      each (request_line quote m.requests) (sorted_request_keys m.requests)
      ≡ each (request_line quote n.requests) (sorted_request_keys n.requests)
  unfolding request_line sorted_request_keys
  request_lines_same =
      each-ext
        (λ key. rw ((find-Reordered same_key same_key_iff h.requests.1 h.requests.0).1 key) refl)
        (sort-Reordered less_key less_key-IsOrder less_key_antisymm
          (Reordered-map (λ e. e.0) h.requests.1))

  duration_lines_same :
      each (duration_lines quote fl m) (sorted_keys m.bucket_counts)
      ≡ each (duration_lines quote fl n) (sorted_keys n.bucket_counts)
  unfolding duration_lines
  duration_lines_same =
      each-ext
        (λ route.
          rw
            (
              get-SameDict m.bucket_counts n.bucket_counts h.bucket_counts route,
              get-SameDict m.request_count n.request_count h.request_count route,
              get-SameDict m.duration_sum n.duration_sum h.duration_sum route,
            )
            refl)
        (sorted_keys-SameDict m.bucket_counts n.bucket_counts h.bucket_counts)

  failure_lines_same :
      each (failure_lines quote m.failures) (sorted_keys m.failures)
      ≡ each (failure_lines quote n.failures) (sorted_keys n.failures)
  unfolding failure_lines
  failure_lines_same =
      each-ext (λ class. rw (get-SameDict m.failures n.failures h.failures class) refl)
        (sorted_keys-SameDict m.failures n.failures h.failures)

  -- The exposition does not depend on the order in which Go iterates over the maps: metrics that
  -- differ in nothing else are exposed alike.
  pub exposition-SameMetrics : exposition quote fl m ≡ exposition quote fl n
  unfolding exposition
  exposition-SameMetrics = rw (request_lines_same, duration_lines_same, failure_lines_same) refl
