-- ===== src/Go/Sort/Laws.antt =====
-- Laws of sorting: permutations, and order.
use mathlib.Core.List.{Perm}
use mathlib.Core.List.Perm
use consent_owner_resolver.Prelude.{
  ◌≡◌, refl, Bool, true, false, List, [], ◌∷◌, arith, Bytes, All, Bool-cases, inl, inr,
}
use consent_owner_resolver.Go.Sort.{insert, sort, less_string}

module _ {A : Type 0} (less : A → A → Bool) where
  -- No element is less than one before it.
  abbrev pub IsSorted : List A → Type 0
  IsSorted [] = Unit
  IsSorted (x ∷ xs) = All (λ y. less y x ≡ false) xs × IsSorted xs

  insert-perm : (x : A) (ys : List A) → Perm (insert less x ys) (x ∷ ys)
  unfolding insert
  insert-perm x [] = Perm.rfl
  insert-perm x (y ∷ ys) = elim (Bool-cases (less y x)) [
    | inl later ↦ rw later (Perm.trans (Perm.cons y (insert-perm x ys)) (Perm.swap x y ys))
    | inr here ↦ rw here Perm.rfl
  ]

  pub sort-perm : (xs : List A) → Perm (sort less xs) xs
  unfolding sort
  sort-perm [] = Perm.rfl
  sort-perm (x ∷ xs) = Perm.trans (insert-perm x (sort less xs)) (Perm.cons x (sort-perm xs))

  -- A strict order whose negation is transitive.
  pub record IsOrder : Type 0 where
    pub asym : (a b : A) → less a b ≡ true → less b a ≡ false
    pub negtrans : (a b c : A) → less b a ≡ false → less c b ≡ false → less c a ≡ false

  module _ (order : IsOrder) where
    All-negtrans :
        (a b : A) (cs : List A)
        → less b a ≡ false
        → All (λ c. less c b ≡ false) cs
        → All (λ c. less c a ≡ false) cs
    All-negtrans a b [] h k = tt
    All-negtrans a b (c ∷ cs) h k = (order.negtrans a b c h k.0, All-negtrans a b cs h k.1)

    All-insert : (P : A → Type 0) (x : A) (ys : List A) → P x → All P ys → All P (insert less x ys)
    unfolding insert
    All-insert P x [] p h = (p, tt)
    All-insert P x (y ∷ ys) p h = elim (Bool-cases (less y x)) [
      | inl later ↦ rw later (h.0, All-insert P x ys p h.1)
      | inr here ↦ rw here (p, h)
    ]

    insert-IsSorted : (x : A) (ys : List A) → IsSorted ys → IsSorted (insert less x ys)
    unfolding insert
    insert-IsSorted x [] h = (tt, tt)
    insert-IsSorted x (y ∷ ys) h = elim (Bool-cases (less y x)) [
      | inl later ↦ rw later (
        All-insert (λ z. less z y ≡ false) x ys (order.asym y x later) h.0,
        insert-IsSorted x ys h.1,
      )
      | inr here ↦ rw here ((here, All-negtrans x y ys here h.0), h)
    ]

    pub sort-IsSorted : (xs : List A) → IsSorted (sort less xs)
    unfolding sort
    sort-IsSorted [] = tt
    sort-IsSorted (x ∷ xs) = insert-IsSorted x (sort less xs) (sort-IsSorted xs)

less_string-asym : (a b : Bytes) → less_string a b ≡ true → less_string b a ≡ false
unfolding less_string
less_string-asym [] [] h = refl
less_string-asym (a ∷ s) [] h = cc
less_string-asym [] (b ∷ t) h = refl
less_string-asym (a ∷ s) (b ∷ t) h = ground (arith, less_string-asym s t)

less_string-negtrans :
    (a b c : Bytes) → less_string b a ≡ false → less_string c b ≡ false → less_string c a ≡ false
unfolding less_string
less_string-negtrans [] b [] h k = refl
less_string-negtrans [] b (z ∷ u) h k = refl
less_string-negtrans (x ∷ s) [] c h k = cc
less_string-negtrans (x ∷ s) (y ∷ t) [] h k = cc
less_string-negtrans (x ∷ s) (y ∷ t) (z ∷ u) h k = ground (arith, less_string-negtrans s t u)

pub less_string-IsOrder : IsOrder less_string
less_string-IsOrder = record { asym = less_string-asym; negtrans = less_string-negtrans }

-- Texts that are not less than one another are the same.
pub less_string_antisymm : (a b : Bytes) → less_string a b ≡ false → less_string b a ≡ false → a ≡ b
unfolding less_string
less_string_antisymm [] [] h k = refl
less_string_antisymm [] (b ∷ t) h k = cc
less_string_antisymm (a ∷ s) [] h k = cc
less_string_antisymm (a ∷ s) (b ∷ t) h k = ground (arith, less_string_antisymm s t)
