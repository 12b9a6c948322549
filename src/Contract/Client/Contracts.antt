-- ===== src/Contract/Client/Contracts.antt =====
-- Laws of SignedContracts in internal/contract/client.go, and of its endpoint.
use mathlib.Core.Path.{subst}
use consent_owner_resolver.Prelude.{
  ℕ, ◌≡◌, ◌≢◌, ◌⊎◌, inl, inr, ◌↔◌, sym, ap, ◌∙◌, true, false, none, some, List, [], ◌∷◌, ◌++◌,
  arith, Bytes, str, Any, All, All-append, Bool-cases, ok, ok-injective, append_cancel,
  append_assoc,
}
use consent_owner_resolver.Prelude.Exec.{>>=-eq-ok}
use consent_owner_resolver.Go.Strings.{split, split-append, split-Lacks, Lacks}
use consent_owner_resolver.Types.{Slice}
use consent_owner_resolver.Contract.{Contract, VerifyResponse, is_signed}
use consent_owner_resolver.Contract.Encoding.{encode_participant}
use consent_owner_resolver.Contract.Encoding.Laws.{
  IsByte, is_path_safe, encode_participant-IsPadded, encode_participant-injective,
}
use consent_owner_resolver.Contract.Client.{
  Network, Client, get_json, verify_url, signed_only, signed_contracts,
}

-- The signed contracts of a list, and no others, are kept.
abbrev pub KeepsSigned : List Contract → List Contract → Type 1
KeepsSigned cs kept =
    (P : Contract → Type 0) → Any P kept ↔ Any (λ ct. P ct × (is_signed ct ≡ true)) cs

module _ (quote : Bytes → Bytes) {W : Type 0} (net : Network W) (c : Client) where
  signed_only-KeepsSigned : (cs : List Contract) → KeepsSigned cs (signed_only quote net c cs)
  unfolding signed_only
  signed_only-KeepsSigned [] P = (λ h. h, λ h. h)
  signed_only-KeepsSigned (x ∷ xs) P = ground (arith, signed_only-KeepsSigned xs P)

  -- Where the call gives no error: the contracts of a pair are the signed ones of the document that the
  -- facade answers with, and none if the facade does not verify the pair.
  pub signed_contracts-KeepsSigned :
      (provider consumer : Bytes) (w : W) (out : Slice Contract)
      → (signed_contracts quote net c provider consumer w).0 ≡ ok out
      → (v : VerifyResponse) × ((get_json quote net c
            (verify_url quote net c provider consumer)
            net.verify_response
            w).0
          ≡ ok v)
        × (((v.verified ≡ false) × (out ≡ none))
            ⊎ ((v.verified ≡ true)
                × (kept : List Contract) × (out ≡ some kept)
                × KeepsSigned v.contracts kept))
  unfolding signed_contracts
  signed_contracts-KeepsSigned provider consumer w out h =
      let (v, answered, same) =
        >>=-eq-ok
          (get_json quote net c (verify_url quote net c provider consumer) net.verify_response) _ w
          h in
      (
        v,
        answered,
        elim (Bool-cases v.verified) [
          | inl verified ↦ inr (
            verified,
            signed_only quote net c v.contracts,
            sym (ok-injective same) ∙ rw verified,
            signed_only-KeepsSigned v.contracts,
          )
          | inr unverified ↦ inl (unverified, sym (ok-injective same) ∙ rw unverified)
        ],
      )

safe-ne-slash : (b : ℕ) → is_path_safe b ≡ true → b ≢ b'/'
unfolding is_path_safe
safe-ne-slash b h e = cc (ap is_path_safe (sym e) ∙ h)

pad-ne-slash : (b : ℕ) → b ≡ b'=' → b ≢ b'/'
pad-ne-slash b pad slash = cc

All-map : {P Q : ℕ → Type 0} → ((b : ℕ) → P b → Q b) → (s : Bytes) → All P s → All Q s
All-map f [] h = tt
All-map f (b ∷ s) h = (f b h.0, All-map f s h.1)

Lacks-encode_participant : (s : Bytes) → All IsByte s → Lacks b'/' (encode_participant s)
Lacks-encode_participant s h =
    let padded = encode_participant-IsPadded s h in
    subst (Lacks b'/') (sym padded.split) (
      All-append _ padded.digits padded.padding (All-map safe-ne-slash _ padded.safe)
        (All-map pad-ne-slash _ padded.pads))

two_parts :
    (u v u' v' : Bytes)
    → Lacks b'/' u
    → Lacks b'/' v
    → Lacks b'/' u'
    → Lacks b'/' v'
    → u ++ b'/' ∷ v ≡ u' ++ b'/' ∷ v'
    → (u ≡ u') × (v ≡ v')
two_parts u v u' v' hu hv hu' hv' e =
    let same : ◌≡◌ {A = List Bytes} (u ∷ v ∷ []) (u' ∷ v' ∷ []) =
      sym (split-append b'/' u v hv ∙ ap (λ l. l ++ v ∷ []) (split-Lacks b'/' u hu))
      ∙ ap (split b'/') e
      ∙ split-append b'/' u' v' hv'
      ∙ ap (λ l. l ++ v' ∷ []) (split-Lacks b'/' u' hu') in
    (cc, cc)

-- Two pairs of participants, given as lists of numbers below 256, have the same endpoint only if they
-- are the same pair.
pub verify_url-injective :
    (quote : Bytes → Bytes) {W : Type 0} (net : Network W) (c : Client) (p q p' q' : Bytes)
    → All IsByte p
    → All IsByte q
    → All IsByte p'
    → All IsByte q'
    → verify_url quote net c p q ≡ verify_url quote net c p' q'
    → (p ≡ p') × (q ≡ q')
unfolding verify_url
verify_url-injective quote net c p q p' q' hp hq hp' hq' e =
    let (same_p, same_q) =
      two_parts _ _ _ _ (Lacks-encode_participant p hp) (Lacks-encode_participant q hq)
        (Lacks-encode_participant p' hp') (Lacks-encode_participant q' hq')
        (append_cancel (c.base_url ++ str "/verify/") _ _ (
          sym (append_assoc (c.base_url ++ str "/verify/") (encode_participant p) _)
          ∙ e
          ∙ append_assoc (c.base_url ++ str "/verify/") (encode_participant p') _)) in
    (
      encode_participant-injective p p' hp hp' same_p,
      encode_participant-injective q q' hq hq' same_q,
    )
