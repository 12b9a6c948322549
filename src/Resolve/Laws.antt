-- ===== src/Resolve/Laws.antt =====
-- Resolve of internal/resolver/config.go, against the first rule that matches.
use consent_owner_resolver.Prelude.{
  true, false, some, List, [], ◌∷◌, ◌++◌, ◌≡◌, ◌⊎◌, inl, inr, refl, sym, ap, All, Bool-cases,
  Result, ok, err, panicked, ok-injective,
}
use mathlib.Core.Path.{subst}
use consent_owner_resolver.Go.Library.{Library}
use consent_owner_resolver.Types.{Slice, Claim, ResolveRequest, ResolveResult}
use consent_owner_resolver.Payload.{new_lazy_payload}
use consent_owner_resolver.Matcher.{Matcher, path, json, static, contract, claims}
use consent_owner_resolver.Matcher.Frame.{Frame}
use consent_owner_resolver.Matcher.Justified.{Justified, fresh, claims-Justified}
use consent_owner_resolver.Rules.{CompiledRule, ConfigResolver, matches}
use consent_owner_resolver.Resolve.{
  no_claims_is_empty_list, result_of, apply_rule, default_result, resolve_from, resolve,
}

module _ (lib : Library) {S : Type 0} where
  abbrev pub Skips : ResolveRequest → CompiledRule S → Type 0
  Skips req rule = matches rule req ≡ false

  -- The rule is the first of the list that matches the request.
  pub record IsFirstMatch (req : ResolveRequest) (rules : List (CompiledRule S))
      (rule : CompiledRule S) : Type 0 where
    pub before : List (CompiledRule S)
    pub after : List (CompiledRule S)
    pub listed : rules ≡ before ++ rule ∷ after
    pub skipped : All (Skips req) before
    pub matched : matches rule req ≡ true

  -- The answer has the rule's flag and scheme, and claims that its matcher justifies.
  pub record AnsweredBy (rule : CompiledRule S) (req : ResolveRequest) (s : S) (out : ResolveResult)
      : Type 0 where
    pub consent : out.consent_required ≡ rule.consent_required
    pub scheme : out.scheme ≡ rule.scheme
    pub listed : List Claim
    pub claims : out.claims ≡ some listed
    pub justified : Justified lib rule.matcher req s (some listed)

  Justified-some :
      (m : Matcher S) (req : ResolveRequest) (s : S) (out : Slice Claim)
      → Justified lib m req s out
      → (cs : List Claim) × (out ≡ some cs)
  Justified-some (path m) req s out h = (h.claim ∷ [], h.alone)
  Justified-some (json m) req s out h = (h.listed, h.returned)
  Justified-some (static m) req s out h = (h.0 ∷ [], h.1)
  Justified-some (contract m) req s out h = (h.items.listed, h.items.returned)

  result_of-AnsweredBy :
      (rule : CompiledRule S) (req : ResolveRequest) (s : S) (r : Result (Slice Claim) × Frame S)
      (out : ResolveResult)
      → ((made : Slice Claim) → r.0 ≡ ok made → Justified lib rule.matcher req s made)
      → (result_of lib rule r).0 ≡ ok out
      → AnsweredBy rule req s out
  unfolding result_of no_claims_is_empty_list
  result_of-AnsweredBy rule req s (ok made, f) out justify h =
      let (cs, some_cs) = Justified-some rule.matcher req s made (justify made refl) in
      subst (AnsweredBy rule req s) (ok-injective h) (record {
        consent = refl;
        scheme = refl;
        listed = cs;
        claims = ap no_claims_is_empty_list some_cs;
        justified = subst (Justified lib rule.matcher req s) some_cs (justify made refl);
      })
  result_of-AnsweredBy rule req s (err e, f) out justify h = cc
  result_of-AnsweredBy rule req s (panicked, f) out justify h = cc

  pub apply_rule-AnsweredBy :
      (rule : CompiledRule S) (req : ResolveRequest) (s : S) (out : ResolveResult)
      → (apply_rule lib rule req (new_lazy_payload req.body) s).0 ≡ ok out
      → AnsweredBy rule req s out
  unfolding apply_rule
  apply_rule-AnsweredBy rule req s out h =
      result_of-AnsweredBy rule req s (claims lib rule.matcher req (fresh req.body s)) out
        (claims-Justified lib rule.matcher req s) h

  -- Where an answer comes from: the first rule that matches, or the defaults if none does.
  abbrev pub Answer :
      ConfigResolver S → ResolveRequest → S → List (CompiledRule S) → ResolveResult → Type 0
  Answer r req s rules out =
      ((rule : CompiledRule S) × IsFirstMatch req rules rule × AnsweredBy rule req s out)
      ⊎ (All (Skips req) rules × (out ≡ default_result lib r))

  Answer-cons :
      (r : ConfigResolver S) (req : ResolveRequest) (s : S) (rule : CompiledRule S)
      (rules : List (CompiledRule S)) (out : ResolveResult)
      → matches rule req ≡ false
      → Answer r req s rules out
      → Answer r req s (rule ∷ rules) out
  Answer-cons r req s rule rules out skip (inl (found, first, answered)) = inl (
    found,
    record {
      before = rule ∷ first.before;
      after = first.after;
      listed = ap (λ l. rule ∷ l) first.listed;
      skipped = (skip, first.skipped);
      matched = first.matched;
    },
    answered,
  )
  Answer-cons r req s rule rules out skip (inr (none_match, same)) = inr ((skip, none_match), same)

  resolve_from-Answer :
      (r : ConfigResolver S) (req : ResolveRequest) (s : S) (rules : List (CompiledRule S))
      (out : ResolveResult)
      → (resolve_from lib r req (new_lazy_payload req.body) rules s).0 ≡ ok out
      → Answer r req s rules out
  unfolding resolve_from
  resolve_from-Answer r req s [] out h = inr (tt, sym (ok-injective h))
  resolve_from-Answer r req s (rule ∷ rules) out h = elim (Bool-cases (matches rule req)) [
    | inl matched ↦ inl (
      rule,
      record { before = []; after = rules; listed = refl; skipped = tt; matched = matched },
      apply_rule-AnsweredBy rule req s out (rw (matched, resolve_from) at h),
    )
    | inr skip ↦
        Answer-cons r req s rule rules out skip
          (resolve_from-Answer r req s rules out (rw (skip, resolve_from) at h))
  ]

  -- An answer that is no error is that of the first rule that matches the request: its flag, its
  -- scheme, and claims that its matcher justifies, whether or not the flag asks for consent. It is the
  -- configured default only if no rule matches.
  pub resolve-Answer :
      (r : ConfigResolver S) (req : ResolveRequest) (s : S) (out : ResolveResult)
      → (resolve lib r req s).0 ≡ ok out
      → Answer r req s r.rules out
  unfolding resolve
  resolve-Answer r req s out h = resolve_from-Answer r req s r.rules out h
