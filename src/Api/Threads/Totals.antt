-- ===== src/Api/Threads/Totals.antt =====
-- The counters of internal/api/metrics.go while any number of requests of internal/api/handler.go
-- are served at the same time.
use consent_owner_resolver.Prelude.{
  ◌+◌, ◌<◌, ◌≤◌, ◌^◌, ◌≡◌, refl, ◌∙◌, List, [], ◌∷◌, All, length, arith, Bytes, Result,
}
use consent_owner_resolver.Types.{ResolveRequest, ResolveResult}
use consent_owner_resolver.Api.Metrics.{Metrics, new_metrics, duration_buckets}
use consent_owner_resolver.Api.Metrics.Counts.{total}
use consent_owner_resolver.Api.Metrics.Consistency.{IsAscending, new_metrics-IsConsistent}
use consent_owner_resolver.Api.Handler.{Shared}
use consent_owner_resolver.Api.Serve.Labels.{new_metrics-IsLabelled}
use consent_owner_resolver.Api.Serve.Totals.{requests_of, fresh}
use consent_owner_resolver.Api.Threads.{
  Stage, Service, Turn, arrives, moves, passes, Reach, at_start, further,
}
use consent_owner_resolver.Api.Threads.Stages.{IsKnown, one, answers}
use consent_owner_resolver.Api.Threads.Moves.{IsSound, Move-Goes}

module _ {W S Fl : Type 0} (v : Service W S Fl)
    (ascending : IsAscending v.fl (duration_buckets v.fl)) where
  -- Each answer is counted for its route, once.
  record IsTallied (m : Metrics Fl) (xs : List (Stage W)) : Type 0 where
    sound : IsSound v m
    counts : (j : Bytes) → requests_of v.fl m j ≡ answers j xs
    known : All IsKnown xs

  one-le : (j : Bytes) (x : Stage W) → one j x ≤ 1
  one-le j x = ground arith

  answers-le : (j : Bytes) (xs : List (Stage W)) → answers j xs ≤ length xs
  unfolding answers
  answers-le j [] = omega arith
  answers-le j (x ∷ xs) = omega (arith, one-le j x, answers-le j xs)

  module _ {Resolves : ResolveRequest → S → Result ResolveResult → S → Type 0} where
    Turn-counts :
        {s t : Shared S Fl} {xs ys : List (Stage W)}
        → Turn v Resolves s xs t ys
        → ((j : Bytes) → requests_of v.fl s.metrics j + 1 < 2 ^ 64)
        → All IsKnown xs
        → (IsSound v s.metrics → IsSound v t.metrics)
          × ((j : Bytes)
              → requests_of v.fl t.metrics j + answers j xs
                ≡ requests_of v.fl s.metrics j + answers j ys)
          × All IsKnown ys
    unfolding answers
    Turn-counts (arrives a) room known = (λ h. h, (λ j. refl), (tt, tt))
    Turn-counts (moves rest move) room (known, others) =
        let goes = Move-Goes v ascending move room known in
        (goes.sound, (λ j. omega (arith, goes.counts j)), (goes.known, others))
    Turn-counts (passes x turn) room (known, others) =
        let (sound, counts, after) = Turn-counts turn room others in
        (sound, (λ j. omega (arith, counts j)), (known, after))

    Turn-length :
        {s t : Shared S Fl} {xs ys : List (Stage W)}
        → Turn v Resolves s xs t ys
        → length xs ≤ length ys
    Turn-length (arrives a) = omega arith
    Turn-length (moves rest move) = omega arith
    Turn-length (passes x turn) = omega (arith, Turn-length turn)

    Reach-IsTallied :
        {s : Shared S Fl} {xs : List (Stage W)} {t : Shared S Fl} {ys : List (Stage W)}
        → Reach v Resolves s xs t ys
        → length ys + 1 < 2 ^ 64
        → IsTallied s.metrics xs
        → IsTallied t.metrics ys
    Reach-IsTallied at_start few h = h
    Reach-IsTallied (further {t = t} {ys = ys} reach turn) few h =
        let before = Reach-IsTallied reach (omega (arith, Turn-length turn, few)) h in
        let (sound, counts, known) =
          Turn-counts turn
            (λ j. omega (arith, few, Turn-length turn, before.counts j, answers-le j ys))
            before.known in
        record {
          sound = sound before.sound;
          counts = λ j. omega (arith, counts j, before.counts j);
          known = known;
        }

    -- From a start without requests, with bounds of the buckets that ascend, whatever `Resolve` comes
    -- back with and however the steps of the requests interleave, while there are fewer than
    -- 2 ^ 64 - 1 of them: the counters are consistent and have known labels, and those of a route,
    -- over all statuses, add up to the number of its requests that are answered.
    pub Reach-IsSound :
        {facade : S} {log : List Bytes} {t : Shared S Fl} {xs : List (Stage W)}
        → Reach v Resolves (record { facade = facade; metrics = new_metrics; log = log }) [] t xs
        → length xs + 1 < 2 ^ 64
        → IsSound v t.metrics
          × ((route : Bytes) → total route t.metrics.requests ≡ answers route xs)
    unfolding answers
    Reach-IsSound {t = t} reach few =
        let h = Reach-IsTallied reach few (record {
          sound = record {
            consistent = new_metrics-IsConsistent v.fl;
            labelled = new_metrics-IsLabelled;
          };
          counts = λ j. fresh v.fl j;
          known = tt;
        }) in
        (h.sound, λ route. h.sound.consistent.totals route ∙ h.counts route)
