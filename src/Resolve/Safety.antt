-- ===== src/Resolve/Safety.antt =====
-- Resolve of internal/resolver/config.go: consent, and answers without claims.
use consent_owner_resolver.Prelude.{
  Bool, true, Option, some, List, [], ◌∷◌, ◌++◌, ◌≡◌, ◌⊎◌, inl, inr, sym, ap, ◌∙◌, Bytes, All, ok,
  some-injective,
}
use mathlib.Core.Path.{subst}
use consent_owner_resolver.Json.{Json, array, nil}
use consent_owner_resolver.Go.Library.{Library}
use consent_owner_resolver.Pointer.{get_json_pointer}
use consent_owner_resolver.Types.{Claim, Body, ResolveRequest, ResolveResult}
use consent_owner_resolver.Payload.{LazyPayload, new_lazy_payload, decode_json_body}
use consent_owner_resolver.Items.Origin.{Origin, Origin-empty}
use consent_owner_resolver.Matcher.{Matcher, path, json, static, contract}
use consent_owner_resolver.Matcher.Justified.{Justified, FromItems}
use consent_owner_resolver.Rules.{CompiledRule, ConfigResolver, matches}
use consent_owner_resolver.Resolve.{apply_rule, resolve_from, resolve}
use consent_owner_resolver.Resolve.Laws.{Skips, IsFirstMatch, resolve-Answer, apply_rule-AnsweredBy}

module _ (lib : Library) where
  FromItems-empty :
      (P : Json → Bytes → Claim → Type 0) (items : Bytes) (is_array : Bool) (b : Option Body)
      → FromItems lib P items is_array b (some [])
      → (is_array ≡ true)
        × (decoded : Json) × (decode_json_body lib b ≡ ok decoded)
        × (get_json_pointer decoded items ≡ some (array nil))
  FromItems-empty P items is_array b h =
      let (many, empty) =
        Origin-empty P h.decoded items is_array
          (subst (Origin P h.decoded items is_array) (sym (some-injective h.returned)) h.origin) in
      (many, h.decoded, h.body, empty)

module _ (lib : Library) {S : Type 0} where
  resolve_from-append :
      (r : ConfigResolver S) (req : ResolveRequest) (body : LazyPayload) (s : S)
      (before : List (CompiledRule S)) (rule : CompiledRule S) (after : List (CompiledRule S))
      → All (Skips lib req) before
      → matches rule req ≡ true
      → resolve_from lib r req body (before ++ rule ∷ after) s ≡ apply_rule lib rule req body s
  unfolding resolve_from
  resolve_from-append r req body s [] rule after skipped matched = rw matched
  resolve_from-append r req body s (x ∷ before) rule after skipped matched =
      rw (skipped.0) (resolve_from-append r req body s before rule after skipped.1 matched)

  -- The first rule that matches decides alone: what the rules behind it are, and whether they match,
  -- makes no difference to the result nor to the state.
  pub resolve-first :
      (r : ConfigResolver S) (req : ResolveRequest) (s : S) (rule : CompiledRule S)
      → IsFirstMatch lib req r.rules rule
      → resolve lib r req s ≡ apply_rule lib rule req (new_lazy_payload req.body) s
  unfolding resolve
  resolve-first r req s rule first =
      ap (λ rules. resolve_from lib r req (new_lazy_payload req.body) rules s) first.listed
      ∙ resolve_from-append r req (new_lazy_payload req.body) s first.before rule first.after
          first.skipped first.matched

  -- Where the first rule that matches asks for consent, every answer that is no error asks for
  -- consent.
  pub resolve_fails_closed :
      (r : ConfigResolver S) (req : ResolveRequest) (s : S) (rule : CompiledRule S)
      (out : ResolveResult)
      → IsFirstMatch lib req r.rules rule
      → rule.consent_required ≡ true
      → (resolve lib r req s).0 ≡ ok out
      → out.consent_required ≡ true
  resolve_fails_closed r req s rule out first asks h =
      (apply_rule-AnsweredBy lib rule req s out
        (ap (λ x. x.0) (sym (resolve-first r req s rule first)) ∙ h)).consent
      ∙ asks

  -- The matcher reads a collection, and the collection in the decoded body is empty.
  abbrev pub ReadsEmpty : Matcher S → Option Body → Type 0
  ReadsEmpty (path m) b = ⊥
  ReadsEmpty (json m) b =
      (m.items_is_array ≡ true)
      × (decoded : Json) × (decode_json_body lib b ≡ ok decoded)
      × (get_json_pointer decoded m.items ≡ some (array nil))
  ReadsEmpty (static m) b = ⊥
  ReadsEmpty (contract m) b =
      (m.items_is_array ≡ true)
      × (decoded : Json) × (decode_json_body lib b ≡ ok decoded)
      × (get_json_pointer decoded m.items ≡ some (array nil))

  Justified-empty :
      (m : Matcher S) (req : ResolveRequest) (s : S)
      → Justified lib m req s (some [])
      → ReadsEmpty m req.body
  Justified-empty (path m) req s h = cc (h.alone)
  Justified-empty (json m) req s h = FromItems-empty lib _ m.items m.items_is_array req.body h
  Justified-empty (static m) req s h = cc (h.1)
  Justified-empty (contract m) req s h =
      FromItems-empty lib _ m.items m.items_is_array req.body h.items

  -- An answer, whether or not it asks for consent, has no claims only if no rule matches, or if the
  -- first rule that matches reads a collection and the collection in the body is empty.
  pub resolve_no_claims :
      (r : ConfigResolver S) (req : ResolveRequest) (s : S) (out : ResolveResult)
      → (resolve lib r req s).0 ≡ ok out
      → out.claims ≡ some []
      → All (Skips lib req) r.rules
        ⊎ ((rule : CompiledRule S) × IsFirstMatch lib req r.rules rule
            × ReadsEmpty rule.matcher req.body)
  resolve_no_claims r req s out h empty = elim (resolve-Answer lib r req s out h) [
    | inl (rule, first, answered) ↦ inr (
      rule,
      first,
      Justified-empty rule.matcher req s (
          subst (λ cs. Justified lib rule.matcher req s (some cs))
            (some-injective (sym answered.claims ∙ empty)) answered.justified),
    )
    | inr (skipped, same) ↦ inl skipped
  ]
