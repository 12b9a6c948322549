-- ===== src/Prelude/Alter.antt =====
-- A table of entries in which the value of a key is updated, and the orders in which Go may iterate
-- over it.
use mathlib.Core.Path.{◌≡◌, refl, sym, ap, ◌∙◌}
use mathlib.Core.Bool.{Bool, true, false}
use mathlib.Core.List.{List, [], ◌∷◌}
use mathlib.Core.Logic.{◌↔◌, inl, inr}
use mathlib.Core.Option.{Option, none, some}
use native.Mathlib.Omega.{arith}
use consent_owner_resolver.Prelude.Tests.{if◌then◌else◌, Bool-cases}
use consent_owner_resolver.Prelude.Text.{Bytes, ◌==◌}
use consent_owner_resolver.Prelude.Dict.{Dict, get, put}
use consent_owner_resolver.Prelude.Reordered.{
  Reordered, none_left, same_head, exchange, two_steps, find, IsTable, find-Reordered,
}

pub Reordered-refl : {A : Type 0} (l : List A) → Reordered l l
Reordered-refl [] = none_left
Reordered-refl (a ∷ l) = same_head a (Reordered-refl l)

module _ {K V : Type 0} (same : K → K → Bool) where
  -- `t[k] = f(t[k])`; the function is given `none` for a key that is not there.
  unfoldable pub alter : (Option V → V) → List (K × V) → K → List (K × V)
  alter f [] k = (k, f none) ∷ []
  alter f ((j, v) ∷ table) k =
      let rest = alter f table k in if same j k then (j, f (some v)) ∷ table else (j, v) ∷ rest

  module _ (same_iff : (a b : K) → (same a b ≡ true) ↔ (a ≡ b)) where
    pub find-alter :
        (f : Option V → V) (table : List (K × V)) (k j : K)
        → find same (alter f table k) j
          ≡ (if same k j then some (f (find same table k)) else find same table j)
    unfolding find alter
    find-alter f [] k j = refl
    find-alter f ((i, v) ∷ table) k j =
        ground (arith, find-alter f table k j, same_iff i k, same_iff i j, same_iff k j)

    pub alter-IsTable :
        (f : Option V → V) (table : List (K × V)) (k : K)
        → IsTable same table
        → IsTable same (alter f table k)
    unfolding alter find
    alter-IsTable f [] k h = (refl, tt)
    alter-IsTable f ((i, v) ∷ table) k h = elim (Bool-cases (same i k)) [
      | inl here ↦ rw here h
      | inr other ↦ rw other (
        find-alter f table k i ∙ ground (arith, same_iff i k, same_iff k i, h.0),
        alter-IsTable f table k h.1,
      )
    ]

    exchanged :
        (f : Option V → V) (i j k : K) (v w : V) (l : List (K × V))
        → same i j ≡ false
        → Reordered (alter f ((i, v) ∷ (j, w) ∷ l) k) (alter f ((j, w) ∷ (i, v) ∷ l) k)
    unfolding alter
    exchanged f i j k v w l apart = elim (Bool-cases (same i k)) [
      | inl first ↦ elim (Bool-cases (same j k)) [
        | inl second ↦
            cc (
              sym apart ∙ (same_iff i j).1 ((same_iff i k).0 first ∙ sym ((same_iff j k).0 second)))
        | inr other ↦ rw (first, other) (exchange (i, f (some v)) (j, w) l)
      ]
      | inr later ↦ elim (Bool-cases (same j k)) [
        | inl second ↦ rw (later, second) (exchange (i, v) (j, f (some w)) l)
        | inr other ↦ rw (later, other) (exchange (i, v) (j, w) (alter f l k))
      ]
    ]

    -- Reordered, a table is updated alike.
    pub alter-Reordered :
        (f : Option V → V) (k : K) {l r : List (K × V)}
        → Reordered l r
        → IsTable same l
        → Reordered (alter f l k) (alter f r k)
    unfolding alter find
    alter-Reordered f k none_left h = Reordered-refl _
    alter-Reordered f k (same_head (j, v) d) h = elim (Bool-cases (same j k)) [
      | inl here ↦ rw here (same_head (j, f (some v)) d)
      | inr other ↦ rw other (same_head (j, v) (alter-Reordered f k d h.1))
    ]
    alter-Reordered f k (exchange (i, v) (j, w) l) h =
        exchanged f i j k v w l (ground (arith, same_iff i j, same_iff j i, h.0))
    alter-Reordered f k (two_steps d e) h =
        two_steps (alter-Reordered f k d h)
          (alter-Reordered f k e (find-Reordered same same_iff d h).0)

    -- Updates of two keys, in either order.
    pub alter_comm :
        (f g : Option V → V) (k j : K) (table : List (K × V))
        → same k j ≡ false
        → Reordered (alter f (alter g table j) k) (alter g (alter f table k) j)
    unfolding alter
    alter_comm f g k j [] apart =
        let turned : same j k ≡ false = ground (arith, apart, same_iff j k, same_iff k j) in
        rw (apart, turned) (exchange (j, g none) (k, f none) [])
    alter_comm f g k j ((i, v) ∷ table) apart = elim (Bool-cases (same i j)) [
      | inl at_j ↦ elim (Bool-cases (same i k)) [
        | inl at_k ↦
            cc (sym apart ∙ (same_iff k j).1 (sym ((same_iff i k).0 at_k) ∙ (same_iff i j).0 at_j))
        | inr not_k ↦ rw (at_j, not_k, at_j) (Reordered-refl _)
      ]
      | inr not_j ↦ elim (Bool-cases (same i k)) [
        | inl at_k ↦ rw (not_j, at_k, not_j) (Reordered-refl _)
        | inr not_k ↦ rw (not_j, not_k, not_j) (same_head (i, v) (alter_comm f g k j table apart))
      ]
    ]

-- An assignment of what is made of the value that is there.
pub put-alter :
    {V : Type 0} (f : Option V → V) (d : Dict V) (k : Bytes)
    → put d k (f (get d k)) ≡ alter ◌==◌ f d k
unfolding put get alter
put-alter f [] k = refl
put-alter f ((j, v) ∷ d) k = elim (Bool-cases (j == k)) [
  | inl here ↦ rw here refl
  | inr other ↦ rw other (ap (λ x. (j, v) ∷ x) (put-alter f d k))
]
