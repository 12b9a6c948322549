-- ===== src/Payload/Laws.antt =====
-- Laws of lazyPayload in internal/resolver/jsonpointer.go.
use consent_owner_resolver.Prelude.{
  Option, none, some, ◌≡◌, ◌≢◌, refl, arith, Result, ok, err, panicked,
}
use consent_owner_resolver.Json.{Json}
use consent_owner_resolver.Go.Library.{Library}
use consent_owner_resolver.Types.{Body}
use consent_owner_resolver.Payload.{decode_json_body, LazyPayload, new_lazy_payload, json, store}

module _ (lib : Library) where
  pub decode_json_body-ne-panicked : (b : Option Body) → decode_json_body lib b ≢ panicked
  unfolding decode_json_body
  decode_json_body-ne-panicked none = cc
  decode_json_body-ne-panicked (some b) = ground arith

  -- The first call decodes the body.
  pub json-new : (b : Option Body) → (json lib (new_lazy_payload b)).0 ≡ decode_json_body lib b
  unfolding json new_lazy_payload
  json-new b = elim (decode_json_body lib b) as (λ r. (store (new_lazy_payload b) r).0 ≡ r) [
    | ok v ↦ refl
    | err e ↦ refl
    | panicked ↦ refl
  ]

  store_again :
      (p : LazyPayload) (r : Result Json)
      → r ≢ panicked
      → json lib (store p r).1 ≡ (r, (store p r).1)
  unfolding json
  store_again p (ok v) h = refl
  store_again p (err e) h = refl
  store_again p panicked h = absurd (h refl)

  -- A second call gives what the first gave, a value or an error, and changes nothing: the body is
  -- decoded once.
  pub json-json :
      (b : Option Body)
      → json lib (json lib (new_lazy_payload b)).1
        ≡ (decode_json_body lib b, (json lib (new_lazy_payload b)).1)
  unfolding json new_lazy_payload
  json-json b =
      store_again (new_lazy_payload b) (decode_json_body lib b) (decode_json_body-ne-panicked b)
