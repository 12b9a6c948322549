-- ===== src/Resolve/Independence.antt =====
-- Resolve of internal/resolver/config.go, on requests that differ in their parties.
use consent_owner_resolver.Prelude.{
  ℕ, suc, Bool, Option, some, List, [], ◌∷◌, ◌≡◌, inl, inr, refl, sym, ap, ◌∙◌, map, Bytes,
  Bool-cases, ok, ok-injective, some-injective, get_elem?,
}
use mathlib.Core.Path.{subst, subst₂, ap₂}
use consent_owner_resolver.Json.{Json, Elements, elements, array}
use consent_owner_resolver.Go.Library.{Library}
use consent_owner_resolver.Types.{Claim, Parties, Body, ResolveRequest, ResolveResult}
use consent_owner_resolver.Payload.{new_lazy_payload}
use consent_owner_resolver.Items.Origin.{Origin, Paired}
use consent_owner_resolver.Matcher.{Matcher, path, json, static, contract}
use consent_owner_resolver.Matcher.PathMatcher.{PathMatcher}
use consent_owner_resolver.Matcher.Owners.{OwnerAt, PathOwner}
use consent_owner_resolver.Matcher.Justified.{Justified, FromItems}
use consent_owner_resolver.Rules.{CompiledRule, ConfigResolver, matches}
use consent_owner_resolver.Resolve.{default_result, resolve_from, resolve}
use consent_owner_resolver.Resolve.Laws.{AnsweredBy, apply_rule-AnsweredBy}

-- The owners of a list of claims, in order.
abbrev pub owners : List Claim → List Bytes
owners = map (λ c. c.owner_id)

-- Two answers to the same question, but for the parties of the exchange.
pub record SameOwners (a b : ResolveResult) : Type 0 where
  pub consent : a.consent_required ≡ b.consent_required
  pub scheme : a.scheme ≡ b.scheme
  pub first : List Claim
  pub second : List Claim
  pub claims : a.claims ≡ some first
  pub claims' : b.claims ≡ some second
  pub same : owners first ≡ owners second

same_array : (es fs : Elements) → some (array es) ≡ some (array fs) → es ≡ fs
same_array es fs h = cc

-- Two relations that both fix the owner by the text at one pointer.
module _ (ptr : Bytes) (P Q : Json → Bytes → Claim → Type 0)
    (P_owner : (item : Json) (selector : Bytes) (c : Claim)
      → P item selector c
      → OwnerAt ptr item selector c)
    (Q_owner : (item : Json) (selector : Bytes) (c : Claim)
      → Q item selector c
      → OwnerAt ptr item selector c) where
  same_owner :
      (item : Json) (selector : Bytes) (c d : Claim)
      → P item selector c
      → Q item selector d
      → c.owner_id ≡ d.owner_id
  same_owner item selector c d p q =
      some-injective (sym (P_owner item selector c p).owner ∙ (Q_owner item selector d q).owner)

  Paired-owners :
      (items : Bytes) (i : ℕ) (rest : List Json) (cs ds : List Claim)
      → Paired P items i rest cs
      → Paired Q items i rest ds
      → owners cs ≡ owners ds
  Paired-owners items i [] [] [] h k = refl
  Paired-owners items i [] [] (d ∷ ds) h k = absurd k
  Paired-owners items i [] (c ∷ cs) ds h k = absurd h
  Paired-owners items i (item ∷ rest) [] ds h k = absurd h
  Paired-owners items i (item ∷ rest) (c ∷ cs) [] h k = absurd k
  Paired-owners items i (item ∷ rest) (c ∷ cs) (d ∷ ds) h k =
      ap₂ (λ o os. o ∷ os) (same_owner item _ c d h.0 k.0)
        (Paired-owners items (suc i) rest cs ds h.1 k.1)

  Origin-owners :
      (decoded : Json) (items : Bytes) (is_array : Bool) (cs ds : List Claim)
      → Origin P decoded items is_array cs
      → Origin Q decoded items is_array ds
      → owners cs ≡ owners ds
  Origin-owners decoded items is_array cs ds (inl (single, root, c, found, one, p))
        (inl (single', root', d, found', one', q)) =
      rw (one, one')
        (ap (λ o. o ∷ [])
          (same_owner root items c d p
            (subst (λ v. Q v items d) (some-injective (sym found' ∙ found)) q)))
  Origin-owners decoded items is_array cs ds (inl (single, root, c, found, one, p))
        (inr (many, es, listed, paired)) =
      cc
  Origin-owners decoded items is_array cs ds (inr (many, es, listed, paired))
        (inl (single, root, c, found, one, p)) =
      cc
  Origin-owners decoded items is_array cs ds (inr (many, es, found, p))
        (inr (many', fs, found', q)) =
      Paired-owners items 0 (elements es) cs ds p
        (subst (λ v. Paired Q items 0 (elements v) ds) (same_array fs es (sym found' ∙ found)) q)

module _ (lib : Library) where
  FromItems-owners :
      (ptr : Bytes) (P Q : Json → Bytes → Claim → Type 0) (items : Bytes) (is_array : Bool)
      (b : Option Body) (cs ds : List Claim)
      → ((item : Json) (selector : Bytes) (c : Claim)
          → P item selector c
          → OwnerAt ptr item selector c)
      → ((item : Json) (selector : Bytes) (c : Claim)
          → Q item selector c
          → OwnerAt ptr item selector c)
      → FromItems lib P items is_array b (some cs)
      → FromItems lib Q items is_array b (some ds)
      → owners cs ≡ owners ds
  FromItems-owners ptr P Q items is_array b cs ds P_owner Q_owner h k =
      rw (some-injective h.returned, some-injective k.returned)
        (Origin-owners ptr P Q P_owner Q_owner h.decoded items is_array h.listed k.listed h.origin (
          subst (λ v. Origin Q v items is_array k.listed) (ok-injective (sym k.body ∙ h.body))
            k.origin))

  PathOwner-owners :
      (m : PathMatcher) (p : Bytes) (cs ds : List Claim)
      → PathOwner m p (some cs)
      → PathOwner m p (some ds)
      → owners cs ≡ owners ds
  PathOwner-owners m p cs ds h k =
      rw (some-injective h.alone, some-injective k.alone)
        (ap (λ o. o ∷ [])
          (some-injective (
            sym h.owner
            ∙ ap (λ g. get_elem? g m.owner_group) (some-injective (sym h.matched ∙ k.matched))
            ∙ k.owner)))

  module _ {S : Type 0} where
    Justified-owners :
        (m : Matcher S) (req : ResolveRequest) (parties : Option Parties) (s t : S)
        (cs ds : List Claim)
        → Justified lib m req s (some cs)
        → Justified lib m (record req { parties = parties }) t (some ds)
        → owners cs ≡ owners ds
    Justified-owners (path m) req parties s t cs ds h k =
        PathOwner-owners m req.resource.path cs ds h k
    Justified-owners (json m) req parties s t cs ds h k =
        FromItems-owners m.owner_ptr _ _ m.items m.items_is_array req.body cs ds
          (λ item selector c at. at) (λ item selector c at. at) h k
    Justified-owners (static m) req parties s t cs ds h k =
        rw (some-injective h.1, some-injective k.1) (ap (λ o. o ∷ []) (h.2 ∙ sym k.2))
    Justified-owners (contract m) req parties s t cs ds h k =
        FromItems-owners m.owner_ptr _ _ m.items m.items_is_array req.body cs ds
          (λ item selector c at. at.0) (λ item selector c at. at.0) h.items k.items

    AnsweredBy-SameOwners :
        (rule : CompiledRule S) (req : ResolveRequest) (parties : Option Parties) (s t : S)
        (a b : ResolveResult)
        → AnsweredBy lib rule req s a
        → AnsweredBy lib rule (record req { parties = parties }) t b
        → SameOwners a b
    AnsweredBy-SameOwners rule req parties s t a b h k = record {
      consent = h.consent ∙ sym k.consent;
      scheme = h.scheme ∙ sym k.scheme;
      first = h.listed;
      second = k.listed;
      claims = h.claims;
      claims' = k.claims;
      same =
          Justified-owners rule.matcher req parties s t h.listed k.listed h.justified k.justified;
    }

    -- Which rules match is read off the resource alone.
    matches-parties :
        (rule : CompiledRule S) (req : ResolveRequest) (parties : Option Parties)
        → matches rule (record req { parties = parties }) ≡ matches rule req
    unfolding matches
    matches-parties rule req parties = refl

    resolve_from-SameOwners :
        (r : ConfigResolver S) (rules : List (CompiledRule S)) (req : ResolveRequest)
        (parties : Option Parties) (s t : S) (a b : ResolveResult)
        → (resolve_from lib r req (new_lazy_payload req.body) rules s).0 ≡ ok a
        → (resolve_from lib r
            (record req { parties = parties })
            (new_lazy_payload req.body)
            rules
            t).0
          ≡ ok b
        → SameOwners a b
    unfolding resolve_from default_result
    resolve_from-SameOwners r [] req parties s t a b h k =
        subst₂ SameOwners (ok-injective h) (ok-injective k) (record {
          consent = refl;
          scheme = refl;
          first = [];
          second = [];
          claims = refl;
          claims' = refl;
          same = refl;
        })
    resolve_from-SameOwners r (rule ∷ rules) req parties s t a b h k =
        elim (Bool-cases (matches rule req)) [
          | inl yes_match ↦
              AnsweredBy-SameOwners rule req parties s t a b
                (apply_rule-AnsweredBy lib rule req s a (rw (yes_match, resolve_from) at h))
                (apply_rule-AnsweredBy lib rule (record req { parties = parties }) t b
                  (rw (matches-parties rule req parties ∙ yes_match, resolve_from) at k))
          | inr skip ↦
              resolve_from-SameOwners r rules req parties s t a b (rw (skip, resolve_from) at h)
                (rw (matches-parties rule req parties ∙ skip, resolve_from) at k)
        ]

    -- Two requests that differ in their parties alone, answered in whatever two states of the facade,
    -- have answers with the same flag, the same scheme and the same owners in the same order, if
    -- neither answer is an error.
    pub resolve-SameOwners :
        (r : ConfigResolver S) (req : ResolveRequest) (parties : Option Parties) (s t : S)
        (a b : ResolveResult)
        → (resolve lib r req s).0 ≡ ok a
        → (resolve lib r (record req { parties = parties }) t).0 ≡ ok b
        → SameOwners a b
    unfolding resolve
    resolve-SameOwners r req parties s t a b h k =
        resolve_from-SameOwners r r.rules req parties s t a b h k
