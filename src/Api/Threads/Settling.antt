-- ===== src/Api/Threads/Settling.antt =====
-- Requests of internal/api/handler.go that are served at the same time, and the steps to their end.
use consent_owner_resolver.Prelude.{
  ℕ, zero, suc, ◌+◌, ◌*◌, ◌≤◌, ◌≡◌, ◌⊎◌, inl, inr, refl, List, [], ◌∷◌, length, ◌∙◌, arith, Result,
}
use consent_owner_resolver.Types.{ResolveRequest, ResolveResult}
use consent_owner_resolver.Api.Handler.{Shared}
use consent_owner_resolver.Api.Threads.{
  Stage, arrived, resolving, failing, reporting, replying, scraping, noting, responded, answered,
  passed, crashed, Service, Move, starts, resolves, counts_failure, reports, replies, scrapes,
  notes, observes, Turn, arrives, moves, passes, Reach, at_start, further,
}
use consent_owner_resolver.Api.Threads.Stages.{ahead, work, enter-IsFresh, after_resolving-nearer}

module _ {W S Fl : Type 0} (v : Service W S Fl)
    (Resolves : ResolveRequest → S → Result ResolveResult → S → Type 0) where
  Move-nearer :
      {s t : Shared S Fl} {x y : Stage W} → Move v Resolves s x t y → suc (ahead y) ≤ ahead x
  Move-nearer (starts a) = omega (arith, (enter-IsFresh v _ a).nearer)
  Move-nearer (resolves g req {out = out} back) = omega (arith, after_resolving-nearer g req out)
  Move-nearer (counts_failure g req e) = omega arith
  Move-nearer (reports g req e) = omega arith
  Move-nearer (replies g out) = omega arith
  Move-nearer (scrapes g) = omega arith
  Move-nearer (notes g failure) = omega arith
  Move-nearer (observes g) = omega arith

  Turn-work :
      {s t : Shared S Fl} {xs ys : List (Stage W)}
      → Turn v Resolves s xs t ys
      → suc (work ys + 7 * length xs) ≤ work xs + 7 * length ys
  unfolding work
  Turn-work (arrives a) = omega arith
  Turn-work (moves rest move) = omega (arith, Move-nearer move)
  Turn-work (passes x turn) = omega (arith, Turn-work turn)

  -- The call of `Resolve` comes back.
  abbrev pub Answers : Type 0
  Answers =
      (req : ResolveRequest) (s : S)
      → (out : Result ResolveResult) × ((t : S) × Resolves req s out t)

  module _ (returns : Answers) where
    own_step :
        (s : Shared S Fl) (x : Stage W)
        → (ahead x ≡ 0) ⊎ ((t : Shared S Fl) × ((y : Stage W) × Move v Resolves s x t y))
    own_step s (arrived a) = inr (_, (_, starts a))
    own_step s (resolving g req) =
        let (out, (t, back)) = returns req s.facade in inr (_, (_, resolves g req back))
    own_step s (failing g req e) = inr (_, (_, counts_failure g req e))
    own_step s (reporting g req e) = inr (_, (_, reports g req e))
    own_step s (replying g out) = inr (_, (_, replies g out))
    own_step s (scraping g) = inr (_, (_, scrapes g))
    own_step s (noting g failure) = inr (_, (_, notes g failure))
    own_step s (responded g) = inr (_, (_, observes g))
    own_step s (answered route w) = inl refl
    own_step s (passed w) = inl refl
    own_step s crashed = inl refl

    next_step :
        (s : Shared S Fl) (xs : List (Stage W))
        → (work xs ≡ 0)
          ⊎ ((t : Shared S Fl) × ((ys : List (Stage W)) × (Turn v Resolves s xs t ys
                  × (length ys ≡ length xs))))
    unfolding work
    next_step s [] = inl refl
    next_step s (x ∷ xs) = elim (own_step s x) [
      | inr (t, (y, move)) ↦ inr (t, (y ∷ xs, (moves xs move, refl)))
      | inl ended ↦ elim (next_step s xs) [
        | inl rest ↦ inl (omega (arith, ended, rest))
        | inr (t, (ys, (turn, same))) ↦ inr (t, (x ∷ ys, (passes x turn, omega (arith, same))))
      ]
    ]

    join :
        {s : Shared S Fl} {xs : List (Stage W)} {t : Shared S Fl} {ys : List (Stage W)}
        {u : Shared S Fl} {zs : List (Stage W)}
        → Turn v Resolves s xs t ys
        → Reach v Resolves t ys u zs
        → Reach v Resolves s xs u zs
    join turn at_start = further at_start turn
    join turn (further reach last) = further (join turn reach) last

    -- From every list of requests there are further steps after which each of them has ended.
    pub settle :
        (n : ℕ) (s : Shared S Fl) (xs : List (Stage W))
        → work xs ≤ n
        → (t : Shared S Fl) × ((ys : List (Stage W)) × (Reach v Resolves s xs t ys
              × (work ys ≡ 0)
              × (length ys ≡ length xs)))
    settle zero s xs enough = (s, (xs, (at_start, omega (arith, enough), refl)))
    settle (suc n) s xs enough = elim (next_step s xs) [
      | inl ended ↦ (s, (xs, (at_start, ended, refl)))
      | inr (t, (ys, (turn, same))) ↦
          let (u, (zs, (reach, ended, kept))) =
            settle n t ys (omega (arith, enough, same, Turn-work turn)) in
          (u, (zs, (join turn reach, ended, kept ∙ same)))
    ]
