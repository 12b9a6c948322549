-- ===== src/Api/Threads/Moves.antt =====
-- What one step of a request does to the metrics of internal/api/metrics.go, whatever the other
-- requests do in between.
use consent_owner_resolver.Prelude.{
  ℕ, suc, ◌+◌, ◌<◌, ◌≤◌, ◌^◌, ◌≡◌, inl, inr, refl, sym, some, arith, Bytes, str, Result,
}
use mathlib.Core.Path.{subst}
use consent_owner_resolver.Types.{ResolveRequest, ResolveResult}
use consent_owner_resolver.Api.Logging.{error_class}
use consent_owner_resolver.Api.Metrics.{Metrics, observe, duration_buckets}
use consent_owner_resolver.Api.Metrics.Consistency.{IsConsistent, IsAscending, observe-IsConsistent}
use consent_owner_resolver.Api.Handler.{Shared, Reply}
use consent_owner_resolver.Api.Serve.{challenged}
use consent_owner_resolver.Api.Serve.Statuses.{
  IsStatus, Fails, write_json-status, logged-metrics, exposed-status,
}
use consent_owner_resolver.Api.Serve.Labels.{IsLabelled, Fails-IsLabelled, observe-IsLabelled}
use consent_owner_resolver.Api.Serve.Totals.{
  requests_of, Fails-requests_of, Fails-IsConsistent, observe-requests_of,
}
use consent_owner_resolver.Api.Threads.{
  Serving, Stage, responded, answered, Service, final, respond, scrape, Move, starts, resolves,
  counts_failure, reports, replies, scrapes, notes, observes,
}
use consent_owner_resolver.Api.Threads.Stages.{
  IsKnown, one, ahead, IsFresh, after_resolving-IsFresh, refusal-IsStatus, enter-IsFresh,
}

module _ {W S Fl : Type 0} (v : Service W S Fl) where
  -- The counters agree with each other, and have known labels.
  pub record IsSound (m : Metrics Fl) : Type 0 where
    pub consistent : IsConsistent v.fl m
    pub labelled : IsLabelled m

  -- From one stage to the next.
  pub record Goes (m : Metrics Fl) (x : Stage W) (n : Metrics Fl) (y : Stage W) : Type 0 where
    pub sound : IsSound m → IsSound n
    pub counts : (j : Bytes) → requests_of v.fl n j + one j x ≡ requests_of v.fl m j + one j y
    pub known : IsKnown y
    pub nearer : suc (ahead y) ≤ ahead x

  Fails-IsSound : (m n : Metrics Fl) → Fails m n → IsSound m → IsSound n
  Fails-IsSound m n fails h = record {
    consistent = Fails-IsConsistent v.fl m n fails h.consistent;
    labelled = Fails-IsLabelled v.fl m n fails h.labelled;
  }

  -- A step on which no response is counted.
  unobserved :
      {m n : Metrics Fl} {x y : Stage W} (k : ℕ)
      → Fails m n
      → ((j : Bytes) → one j x ≡ 0)
      → suc k ≤ ahead x
      → IsFresh k y
      → Goes m x n y
  unobserved {m = m} {n = n} {x = x} k fails none_yet far f = record {
    sound = Fails-IsSound m n fails;
    counts = λ j. omega (arith, Fails-requests_of v.fl m n j fails, none_yet j, f.uncounted j);
    known = f.known;
    nearer = omega (arith, far, f.nearer);
  }

  respond-status :
      (g : Serving W) (out : Reply) (s : Shared S Fl)
      → IsStatus out.status
      → (final (record g { recorder = (respond v g out s).0 }) ≡ out.status)
        × ((respond v g out s).1.metrics ≡ s.metrics)
  unfolding respond final
  respond-status g out s status =
      write_json-status v.writer v.encode out.status out.payload
        (challenged v.writer out.challenge g.recorder) s status

  scrape-status :
      (g : Serving W) (s : Shared S Fl)
      → g.recorder.status ≡ 0
      → final (record g { recorder = (scrape v g s).1 }) ≡ 200
  unfolding scrape final
  scrape-status g s new = exposed-status v.writer v.quote v.fl g.recorder s.metrics new

  observed :
      (ascending : IsAscending v.fl (duration_buckets v.fl)) (g : Serving W) (m : Metrics Fl)
      → ((j : Bytes) → requests_of v.fl m j + 1 < 2 ^ 64)
      → IsKnown (responded g)
      → Goes m
          (responded g)
          (observe v.fl g.route (final g) g.elapsed m)
          (answered g.route g.recorder.response_writer)
  observed ascending g m room (route, status) = record {
    sound = λ h. record {
      consistent =
          observe-IsConsistent v.fl ascending g.route (final g) g.elapsed m (room g.route)
            h.consistent;
      labelled = observe-IsLabelled v.fl g.route (final g) g.elapsed m route status h.labelled;
    };
    counts = λ j.
        ground (arith, observe-requests_of v.fl g.route j (final g) g.elapsed m (room g.route));
    known = tt;
    nearer = omega arith;
  }

  -- A step of a request counts it when it answers it, and nothing otherwise.
  pub Move-Goes :
      {Resolves : ResolveRequest → S → Result ResolveResult → S → Type 0} {s t : Shared S Fl}
      {x y : Stage W}
      → IsAscending v.fl (duration_buckets v.fl)
      → Move v Resolves s x t y
      → ((j : Bytes) → requests_of v.fl s.metrics j + 1 < 2 ^ 64)
      → IsKnown x
      → Goes s.metrics x t.metrics y
  Move-Goes ascending (starts a) room k =
      unobserved 5 (inl refl) (λ j. refl) (omega arith) (enter-IsFresh v _ a)
  Move-Goes ascending (resolves g req {out = out} back) room k =
      unobserved 4 (inl refl) (λ j. refl) (omega arith) (after_resolving-IsFresh g req out k)
  Move-Goes ascending (counts_failure g req e) room k =
      unobserved 3 (inr (error_class (some e), refl)) (λ j. refl) (omega arith)
        (record { known = k; uncounted = λ j. refl; nearer = omega arith })
  Move-Goes ascending (reports g req e) room k =
      unobserved 2 (inl refl) (λ j. refl) (omega arith)
        (record { known = (k, refusal-IsStatus e); uncounted = λ j. refl; nearer = omega arith })
  Move-Goes {s = s} ascending (replies g out) room (route, status) =
      let (same, kept) = respond-status g out s status in
      unobserved 1 (inl kept) (λ j. refl) (omega arith)
        (record {
          known = (route, subst IsStatus (sym same) status);
          uncounted = λ j. refl;
          nearer = omega arith;
        })
  Move-Goes {s = s} ascending (scrapes g) room (route, new) =
      unobserved 2 (inl refl) (λ j. refl) (omega arith)
        (record {
          known = (route, inl (scrape-status g s new));
          uncounted = λ j. refl;
          nearer = omega arith;
        })
  Move-Goes {s = s} ascending (notes g failure) room k =
      unobserved 1
        (inl (logged-metrics v.writer (str "[owner-resolver] write metrics: ") failure s))
        (λ j. refl) (omega arith)
        (record { known = k; uncounted = λ j. refl; nearer = omega arith })
  Move-Goes {s = s} ascending (observes g) room k = observed ascending g s.metrics room k
