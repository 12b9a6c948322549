-- ===== src/Settled/Concurrent.antt =====
-- Requests of internal/api/handler.go that are served at the same time, on a resolver that
-- internal/resolver/config.go compiles: whether each of them gets its answer.
use consent_owner_resolver.Prelude.{
  ◌≡◌, refl, sym, ap, ◌∙◌, arith, Bool, true, false, Option, List, [], ◌∷◌, All, length, Bytes,
  Result, ok, err, panicked,
}
use mathlib.Core.Path.{subst}
use consent_owner_resolver.Go.Library.{Library, Regexp, done}
use consent_owner_resolver.Types.{ResolveRequest, ResolveResult}
use consent_owner_resolver.RawConfig.{RawConfig}
use consent_owner_resolver.Contract.Client.{Network}
use consent_owner_resolver.Cache.{Facade}
use consent_owner_resolver.Rules.{ConfigResolver}
use consent_owner_resolver.Resolve.{resolve}
use consent_owner_resolver.Config.{compile_config}
use consent_owner_resolver.Api.Handler.{
  Decoding, decoded, too_large, invalid, Options, Shared, new_handler,
}
use consent_owner_resolver.Api.Serve.{Arrival, route_resolve, route_metrics}
use consent_owner_resolver.Api.Threads.{
  Serving, Stage, arrived, resolving, failing, reporting, replying, scraping, noting, responded,
  answered, passed, crashed, Service, after_decoding, after_resolving, enter_metrics, enter_health,
  enter_resolve, stamped, enter, Move, starts, resolves, counts_failure, reports, replies, scrapes,
  notes, observes, Reach,
}
use consent_owner_resolver.Api.Threads.Stages.{ahead, work, enter-cases}
use consent_owner_resolver.Api.Threads.Invariants.{Reach-All}
use consent_owner_resolver.Api.Threads.Settling.{Answers, settle}
use consent_owner_resolver.Api.Threads.Outcomes.{InSomeState}
use consent_owner_resolver.Settled.{Settles}
use consent_owner_resolver.Settled.Leaves.{IsRegexp}
use consent_owner_resolver.Settled.Rules.{resolve-Settles}

module _ {W : Type 0} where
  abbrev is_crashed : Stage W → Bool
  is_crashed (arrived a) = false
  is_crashed (resolving g req) = false
  is_crashed (failing g req e) = false
  is_crashed (reporting g req e) = false
  is_crashed (replying g out) = false
  is_crashed (scraping g) = false
  is_crashed (noting g failure) = false
  is_crashed (responded g) = false
  is_crashed (answered route w) = false
  is_crashed (passed w) = false
  is_crashed crashed = true

  abbrev IsAlive : Stage W → Type 0
  IsAlive x = is_crashed x ≡ false

  -- The request has been answered, by a route or by the multiplexer.
  abbrev pub IsAnswered : Stage W → Type 0
  IsAnswered (answered route w) = Unit
  IsAnswered (passed w) = Unit
  IsAnswered (arrived a) = ⊥
  IsAnswered (resolving g req) = ⊥
  IsAnswered (failing g req e) = ⊥
  IsAnswered (reporting g req e) = ⊥
  IsAnswered (replying g out) = ⊥
  IsAnswered (scraping g) = ⊥
  IsAnswered (noting g failure) = ⊥
  IsAnswered (responded g) = ⊥
  IsAnswered crashed = ⊥

  IsAlive-IsAnswered : (x : Stage W) → ahead x ≡ 0 → IsAlive x → IsAnswered x
  IsAlive-IsAnswered (answered route w) h alive = tt
  IsAlive-IsAnswered (passed w) h alive = tt
  IsAlive-IsAnswered (arrived a) h alive = absurd (omega (arith, h))
  IsAlive-IsAnswered (resolving g req) h alive = absurd (omega (arith, h))
  IsAlive-IsAnswered (failing g req e) h alive = absurd (omega (arith, h))
  IsAlive-IsAnswered (reporting g req e) h alive = absurd (omega (arith, h))
  IsAlive-IsAnswered (replying g out) h alive = absurd (omega (arith, h))
  IsAlive-IsAnswered (scraping g) h alive = absurd (omega (arith, h))
  IsAlive-IsAnswered (noting g failure) h alive = absurd (omega (arith, h))
  IsAlive-IsAnswered (responded g) h alive = absurd (omega (arith, h))
  IsAlive-IsAnswered crashed h alive = cc

  work-IsAnswered : (xs : List (Stage W)) → work xs ≡ 0 → All IsAlive xs → All IsAnswered xs
  unfolding work
  work-IsAnswered [] h alive = tt
  work-IsAnswered (x ∷ xs) h (alive, others) =
      (IsAlive-IsAnswered x (omega (arith, h)) alive, work-IsAnswered xs (omega (arith, h)) others)

  after_decoding-IsAlive : (g : Serving W) (d : Decoding) → IsAlive (after_decoding g d)
  unfolding after_decoding
  after_decoding-IsAlive g (decoded req) = refl
  after_decoding-IsAlive g too_large = refl
  after_decoding-IsAlive g (invalid why) = refl

  after_resolving-IsAlive :
      (g : Serving W) (req : ResolveRequest) (r : Result ResolveResult)
      → Settles r
      → IsAlive (after_resolving g req r)
  unfolding after_resolving
  after_resolving-IsAlive g req (ok out) fine = refl
  after_resolving-IsAlive g req (err e) fine = refl
  after_resolving-IsAlive g req panicked fine = absurd fine

  enter_metrics-IsAlive : (g : Serving W) → IsAlive (enter_metrics g)
  unfolding enter_metrics
  enter_metrics-IsAlive g = ground arith

  module _ {S Fl : Type 0} (v : Service W S Fl) where
    enter_resolve-IsAlive : (g : Serving W) → IsAlive (enter_resolve v g)
    unfolding enter_resolve
    enter_resolve-IsAlive g =
        ground (arith, after_decoding-IsAlive g (v.decode v.handler.max_body_bytes g.request.body))

    enter-IsAlive : (o : Option Bytes) (a : Arrival W) → IsAlive (enter v o a)
    unfolding enter_health
    enter-IsAlive o a =
        enter-cases v IsAlive o a (enter_resolve-IsAlive (stamped v route_resolve a)) refl
          (enter_metrics-IsAlive (stamped v route_metrics a)) refl

    -- The call of `Resolve` never panics.
    module _ (Resolves : ResolveRequest → S → Result ResolveResult → S → Type 0)
        (settles : (req : ResolveRequest) (s t : S) (out : Result ResolveResult)
          → Resolves req s out t
          → Settles out) where
      Move-IsAlive : {s t : Shared S Fl} {x y : Stage W} → Move v Resolves s x t y → IsAlive y
      Move-IsAlive (starts a) = enter-IsAlive _ a
      Move-IsAlive (resolves g req back) = after_resolving-IsAlive g req _ (settles req _ _ _ back)
      Move-IsAlive (counts_failure g req e) = refl
      Move-IsAlive (reports g req e) = refl
      Move-IsAlive (replies g out) = refl
      Move-IsAlive (scrapes g) = refl
      Move-IsAlive (notes g failure) = refl
      Move-IsAlive (observes g) = refl

      Reach-IsAlive :
          {s t : Shared S Fl} {xs ys : List (Stage W)}
          → Reach v Resolves s xs t ys
          → All IsAlive xs
          → All IsAlive ys
      Reach-IsAlive reach h =
          Reach-All v Resolves IsAlive (λ a. refl) (λ s t x y move alive. Move-IsAlive move) reach h

      -- From every state that is reached without a request at the start, a state is reached in which
      -- all of the requests have been answered.
      Reach-answers :
          {s t : Shared S Fl} {xs : List (Stage W)}
          → Answers v Resolves
          → Reach v Resolves s [] t xs
          → (u : Shared S Fl) × ((ys : List (Stage W)) × (Reach v Resolves t xs u ys
                × (length ys ≡ length xs)
                × All IsAnswered ys))
      Reach-answers {t = t} {xs = xs} answers reach =
          let (u, (ys, (on, ended, same))) =
            settle v Resolves answers (work xs) t xs (omega arith) in
          (
            u,
            (ys, (on, same, work-IsAnswered ys ended (Reach-IsAlive on (Reach-IsAlive reach tt)))),
          )

-- A service of a resolver that is compiled from a configuration, whose calls of `Resolve` come back
-- with the outcome for some state of the resolver, while that state may change in any way, and whose
-- regular expressions give a text for each of their groups. However the steps of its
-- requests interleave, from a start without any: from every state that is reached there are further
-- steps after which every request has been answered, by its route or by the multiplexer; none is lost
-- to a panic.
pub Reach-IsAnswered :
    (lib : Library) {W V Fl : Type 0} (net : Network V) (raw : RawConfig)
    (r : ConfigResolver (Facade V)) (opts : Options) (v : Service W (Facade V) Fl)
    {s t : Shared (Facade V) Fl} {xs : List (Stage W)}
    → ((p : Bytes) (re : Regexp) → lib.compile p ≡ done re → IsRegexp re)
    → compile_config lib net raw ≡ ok r
    → v.handler ≡ new_handler (resolve lib r) opts
    → Reach v (InSomeState v) s [] t xs
    → (u : Shared (Facade V) Fl) × ((ys : List (Stage W)) × (Reach v (InSomeState v) t xs u ys
          × (length ys ≡ length xs)
          × All IsAnswered ys))
unfolding new_handler
Reach-IsAnswered lib net raw r opts v regexps compiled made reach =
    Reach-answers v (InSomeState v)
      (λ req s t out (seen, back).
        subst Settles (ap (λ h. (h.resolver req seen).0) (sym made) ∙ back)
          (resolve-Settles lib net raw r regexps compiled req seen))
      (λ req s. ((v.handler.resolver req s).0, (s, (s, refl)))) reach
