-- ===== src/Governing/Laws.antt =====
-- findContractForTarget of contract_matcher.go, against ODRL permissions and prohibitions.
use consent_owner_resolver.Prelude.{
  true, false, Option, none, some, List, [], ◌∷◌, ◌++◌, ◌≡◌, ◌↔◌, ◌⊎◌, inl, inr, refl, ap, arith,
  Bytes, eq_iff, All, Any, Bool-cases,
}
use consent_owner_resolver.Contract.{Rule, Policy, Contract}
use consent_owner_resolver.Governing.{
  targets, any_permits, permits, any_prohibits, prohibits, find_contract_for_target,
}

-- A rule of the list names the object.
abbrev pub Targets : Bytes → List Rule → Type 0
Targets uri = Any (λ r. r.asset_target ≡ uri)

-- Some policy of the contract permits, or prohibits, the object.
abbrev pub Grants : Bytes → Contract → Type 0
Grants uri c = Any (λ p. Targets uri p.permission) c.policy

abbrev pub Denies : Bytes → Contract → Type 0
Denies uri c = Any (λ p. Targets uri p.prohibition) c.policy

abbrev pub Governs : Bytes → Contract → Type 0
Governs uri c = Grants uri c × ¬ Denies uri c

targets_iff : (uri : Bytes) (rules : List Rule) → (targets rules uri ≡ true) ↔ Targets uri rules
unfolding targets
targets_iff uri [] = (λ h. cc, λ h. absurd h)
targets_iff uri (r ∷ rules) = ground (arith, eq_iff r.asset_target uri, targets_iff uri rules)

any_permits_iff :
    (uri : Bytes) (ps : List Policy)
    → (any_permits ps uri ≡ true) ↔ Any (λ p. Targets uri p.permission) ps
unfolding any_permits
any_permits_iff uri [] = (λ h. cc, λ h. absurd h)
any_permits_iff uri (p ∷ ps) = ground (arith, targets_iff uri p.permission, any_permits_iff uri ps)

any_prohibits_iff :
    (uri : Bytes) (ps : List Policy)
    → (any_prohibits ps uri ≡ true) ↔ Any (λ p. Targets uri p.prohibition) ps
unfolding any_prohibits
any_prohibits_iff uri [] = (λ h. cc, λ h. absurd h)
any_prohibits_iff uri (p ∷ ps) =
    ground (arith, targets_iff uri p.prohibition, any_prohibits_iff uri ps)

permits_iff : (uri : Bytes) (c : Contract) → (permits c uri ≡ true) ↔ Grants uri c
unfolding permits
permits_iff uri c = any_permits_iff uri c.policy

prohibits_iff : (uri : Bytes) (c : Contract) → (prohibits c uri ≡ true) ↔ Denies uri c
unfolding prohibits
prohibits_iff uri c = any_prohibits_iff uri c.policy

-- A contract is the first of a list that governs the object.
pub record IsFirst (uri : Bytes) (cs : List Contract) (c : Contract) : Type 0 where
  pub before : List Contract
  pub after : List Contract
  pub listed : cs ≡ before ++ c ∷ after
  pub governs : Governs uri c
  pub others : All (λ d. ¬ Governs uri d) before

IsFirst-cons :
    (uri : Bytes) (d : Contract) (cs : List Contract) (c : Contract)
    → ¬ Governs uri d
    → IsFirst uri cs c
    → IsFirst uri (d ∷ cs) c
IsFirst-cons uri d cs c no_d first = record {
  before = d ∷ first.before;
  after = first.after;
  listed = ap (λ l. d ∷ l) first.listed;
  governs = first.governs;
  others = (no_d, first.others);
}

-- The tests of the loop against `Governs`.
not_governs :
    (uri : Bytes) (c : Contract)
    → (prohibits c uri ≡ true) ⊎ (permits c uri ≡ false)
    → ¬ Governs uri c
not_governs uri c (inl denied) g = g.1 ((prohibits_iff uri c).0 denied)
not_governs uri c (inr refused) g = cc ((permits_iff uri c).1 g.0)

governs_of_tests :
    (uri : Bytes) (c : Contract) → prohibits c uri ≡ false → permits c uri ≡ true → Governs uri c
governs_of_tests uri c clear granted =
    ((permits_iff uri c).0 granted, λ denied. cc ((prohibits_iff uri c).1 denied))

-- The result of the search.
abbrev pub Found : Bytes → List Contract → Option Contract → Type 0
Found uri cs none = All (λ c. ¬ Governs uri c) cs
Found uri cs (some c) = IsFirst uri cs c

Found-cons :
    (uri : Bytes) (c : Contract) (cs : List Contract) (o : Option Contract)
    → ¬ Governs uri c
    → Found uri cs o
    → Found uri (c ∷ cs) o
Found-cons uri c cs none no_c h = (no_c, h)
Found-cons uri c cs (some d) no_c h = IsFirst-cons uri c cs d no_c h

-- The search gives the first contract that permits the object in some policy and prohibits it in
-- none, and nothing only if no contract of the list does so.
pub find_contract_for_target-Found :
    (uri : Bytes) (cs : List Contract) → Found uri cs (find_contract_for_target cs uri)
unfolding find_contract_for_target
find_contract_for_target-Found uri [] = tt
find_contract_for_target-Found uri (c ∷ cs) = elim (Bool-cases (prohibits c uri)) [
  | inl denied ↦ rw denied (
      Found-cons uri c cs (find_contract_for_target cs uri) (not_governs uri c (inl denied))
        (find_contract_for_target-Found uri cs))
  | inr clear ↦ elim (Bool-cases (permits c uri)) [
    | inl granted ↦
        rw (clear, granted)
          (record {
            before = [];
            after = cs;
            listed = refl;
            governs = governs_of_tests uri c clear granted;
            others = tt;
          })
    | inr refused ↦
        rw (clear, refused)
          (Found-cons uri c cs (find_contract_for_target cs uri) (not_governs uri c (inr refused))
            (find_contract_for_target-Found uri cs))
  ]
]

pub find_contract_for_target-Governs :
    (uri : Bytes) (cs : List Contract) (c : Contract)
    → find_contract_for_target cs uri ≡ some c
    → IsFirst uri cs c
find_contract_for_target-Governs uri cs c h = rw h at (find_contract_for_target-Found uri cs)
