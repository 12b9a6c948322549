-- ===== src/Api/Threads/Replies.antt =====
-- Which request of internal/api/handler.go a result is written to, while others are served at the
-- same time.
use consent_owner_resolver.Prelude.{
  ◌≡◌, ◌⊎◌, inl, inr, refl, sym, Option, List, [], ◌∷◌, ◌++◌, All-at, Bytes, str, ◌==◌, eq_iff,
  Bool-cases, Error, Result, ok, err, panicked,
}
use consent_owner_resolver.Types.{ResolveRequest, ResolveResult}
use consent_owner_resolver.Api.Handler.{
  bearer_prefix, HttpRequest, Decoding, decoded, too_large, invalid, result, Reply, Shared,
  authorized,
}
use consent_owner_resolver.Api.Handler.Laws.{authorized_iff, result-injective}
use consent_owner_resolver.Api.Serve.{Arrival, route_resolve, route_metrics}
use consent_owner_resolver.Api.Threads.{
  Serving, Stage, arrived, resolving, failing, reporting, replying, scraping, noting, responded,
  answered, passed, crashed, Service, after_decoding, after_resolving, refusal, enter_metrics,
  enter_health, enter_resolve, stamped, enter, Move, starts, resolves, counts_failure, reports,
  replies, scrapes, notes, observes, Reach,
}
use consent_owner_resolver.Api.Threads.Stages.{enter-cases}
use consent_owner_resolver.Api.Threads.Invariants.{Reach-All}

module _ {W S Fl : Type 0} (v : Service W S Fl) where
  -- The call of `Resolve` that a request asks for: it is a POST, it presents the secret, if there is
  -- one, and its body decodes.
  pub record IsAsked (q : HttpRequest) (req : ResolveRequest) : Type 0 where
    pub method : q.method ≡ str "POST"
    pub admitted :
        (v.handler.auth_token ≡ []) ⊎ (q.authorization ≡ bearer_prefix ++ v.handler.auth_token)
    pub body : v.decode v.handler.max_body_bytes q.body ≡ decoded req

  module _ (Resolves : ResolveRequest → S → Result ResolveResult → S → Type 0) where
    -- The call that a request asked for, and that came back with a result.
    pub record IsBacked (q : HttpRequest) (out : ResolveResult) : Type 0 where
      pub request : ResolveRequest
      pub asked : IsAsked q request
      pub before : S
      pub after : S
      pub resolved : Resolves request before (ok out) after

    abbrev Carries : Serving W → Reply → Type 0
    Carries g written =
        (out : ResolveResult)
        → written.payload ≡ result out
        → IsBacked g.request out × (written.status ≡ 200)

    -- What a stage knows of the call.
    abbrev Due : Stage W → Type 0
    Due (arrived a) = Unit
    Due (resolving g req) = IsAsked g.request req
    Due (failing g req e) = IsAsked g.request req
    Due (reporting g req e) = IsAsked g.request req
    Due (replying g out) = Carries g out
    Due (scraping g) = Unit
    Due (noting g failure) = Unit
    Due (responded g) = Unit
    Due (answered route w) = Unit
    Due (passed w) = Unit
    Due crashed = Unit

    after_decoding-Due :
        (g : Serving W) (d : Decoding)
        → v.decode v.handler.max_body_bytes g.request.body ≡ d
        → g.request.method ≡ str "POST"
        → (v.handler.auth_token ≡ [])
          ⊎ (g.request.authorization ≡ bearer_prefix ++ v.handler.auth_token)
        → Due (after_decoding g d)
    unfolding after_decoding
    after_decoding-Due g (decoded req) same post admitted = record {
      method = post;
      admitted = admitted;
      body = same;
    }
    after_decoding-Due g too_large same post admitted = λ out e. cc
    after_decoding-Due g (invalid why) same post admitted = λ out e. cc

    after_resolving-Due :
        (g : Serving W) (req : ResolveRequest) (r : Result ResolveResult) (s t : S)
        → Resolves req s r t
        → IsAsked g.request req
        → Due (after_resolving g req r)
    unfolding after_resolving
    after_resolving-Due g req (ok made) s t back asked = λ out e. (
      record {
        request = req;
        asked = asked;
        before = s;
        after = t;
        resolved = rw (sym (result-injective e)) back;
      },
      refl,
    )
    after_resolving-Due g req (err e) s t back asked = asked
    after_resolving-Due g req panicked s t back asked = tt

    refusal-Due : (g : Serving W) (e : Error) → Due (replying g (refusal e))
    unfolding refusal
    refusal-Due g e = elim (Bool-cases e.bad_request) [
      | inl bad ↦ rw bad (λ out e. cc)
      | inr other ↦ rw other (λ out e. cc)
    ]

    enter_resolve-Due : (g : Serving W) → Due (enter_resolve v g)
    unfolding enter_resolve
    enter_resolve-Due g = elim (Bool-cases (g.request.method == str "POST")) [
      | inr other ↦ rw other (λ out e. cc)
      | inl post ↦ elim (Bool-cases (authorized v.handler.auth_token g.request.authorization)) [
        | inr refused ↦ rw (post, refused) (λ out e. cc)
        | inl admitted ↦
            rw (post, admitted)
              (after_decoding-Due g (v.decode v.handler.max_body_bytes g.request.body) refl
                ((eq_iff g.request.method (str "POST")).0 post)
                ((authorized_iff v.handler.auth_token g.request.authorization).0 admitted))
      ]
    ]

    enter_metrics-Due : (g : Serving W) → Due (enter_metrics g)
    unfolding enter_metrics
    enter_metrics-Due g = elim (Bool-cases (g.request.method == str "GET")) [
      | inr other ↦ rw other (λ out e. cc)
      | inl get ↦ rw get tt
    ]

    enter-Due : (o : Option Bytes) (a : Arrival W) → Due (enter v o a)
    unfolding enter_health
    enter-Due o a =
        enter-cases v Due o a (enter_resolve-Due (stamped v route_resolve a)) (λ out e. cc)
          (enter_metrics-Due (stamped v route_metrics a)) tt

    Move-Due : {s t : Shared S Fl} {x y : Stage W} → Move v Resolves s x t y → Due x → Due y
    Move-Due (starts a) h = enter-Due _ a
    Move-Due (resolves g req back) h = after_resolving-Due g req _ _ _ back h
    Move-Due (counts_failure g req e) h = h
    Move-Due (reports g req e) h = refusal-Due g e
    Move-Due (replies g out) h = tt
    Move-Due (scrapes g) h = tt
    Move-Due (notes g failure) h = tt
    Move-Due (observes g) h = tt

    -- However the steps of the requests interleave, from a start without any: a result that is about
    -- to be written has the status 200, and is one that `Resolve` came back with for what the body of
    -- this request decodes to, and the request is a POST that presents the secret, if there is one.
    pub Reach-IsBacked :
        {s t : Shared S Fl} (before after : List (Stage W)) (g : Serving W) (written : Reply)
        (out : ResolveResult)
        → Reach v Resolves s [] t (before ++ replying g written ∷ after)
        → written.payload ≡ result out
        → IsBacked g.request out × (written.status ≡ 200)
    Reach-IsBacked before after g written out reach e =
        All-at Due before (replying g written) after
          (Reach-All v Resolves Due (λ a. tt) (λ s t x y move. Move-Due move) reach tt) out e
