-- ===== src/Api/Threads/Invariants.antt =====
-- Induction over the steps of the requests that internal/api/handler.go serves at the same time, for a
-- predicate on the stage of one request.
use consent_owner_resolver.Prelude.{List, All, Result}
use consent_owner_resolver.Types.{ResolveRequest, ResolveResult}
use consent_owner_resolver.Api.Handler.{Shared}
use consent_owner_resolver.Api.Serve.{Arrival}
use consent_owner_resolver.Api.Threads.{
  Stage, arrived, Service, Move, Turn, arrives, moves, passes, Reach, at_start, further,
}

module _ {W S Fl : Type 0} (v : Service W S Fl)
    (Resolves : ResolveRequest → S → Result ResolveResult → S → Type 0) (P : Stage W → Type 0)
    (begins : (a : Arrival W) → P (arrived a))
    (goes_on : (s t : Shared S Fl) (x y : Stage W) → Move v Resolves s x t y → P x → P y) where
  Turn-All :
      {s t : Shared S Fl} {xs ys : List (Stage W)} → Turn v Resolves s xs t ys → All P xs → All P ys
  Turn-All (arrives a) h = (begins a, tt)
  Turn-All (moves rest move) h = (goes_on _ _ _ _ move h.0, h.1)
  Turn-All (passes x turn) h = (h.0, Turn-All turn h.1)

  pub Reach-All :
      {s : Shared S Fl} {xs : List (Stage W)} {t : Shared S Fl} {ys : List (Stage W)}
      → Reach v Resolves s xs t ys
      → All P xs
      → All P ys
  Reach-All at_start h = h
  Reach-All (further reach turn) h = Turn-All turn (Reach-All reach h)
