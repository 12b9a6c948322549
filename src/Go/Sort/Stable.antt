-- ===== src/Go/Sort/Stable.antt =====
-- Sorting, against the order of what is sorted.
use consent_owner_resolver.Prelude.{◌≡◌, refl, ap, ◌∙◌, Bool, false, List, [], ◌∷◌, arith}
use consent_owner_resolver.Prelude.Reordered.{Reordered, none_left, same_head, exchange, two_steps}
use consent_owner_resolver.Go.Sort.{insert, sort}
use consent_owner_resolver.Go.Sort.Laws.{IsOrder}

module _ {A : Type 0} (less : A → A → Bool) (order : IsOrder less)
    (antisymm : (a b : A) → less a b ≡ false → less b a ≡ false → a ≡ b) where
  insert_comm :
      (x y : A) (zs : List A) → insert less x (insert less y zs) ≡ insert less y (insert less x zs)
  unfolding insert
  insert_comm x y [] = ground (arith, order.asym x y, antisymm x y, order.asym y x)
  insert_comm x y (z ∷ zs) = ground (
    arith,
    order.asym x y,
    order.asym y x,
    antisymm x y,
    insert_comm x y zs,
    order.negtrans x y z,
    order.negtrans y x z,
    order.negtrans x z y,
    order.negtrans y z x,
    order.negtrans z x y,
    order.negtrans z y x,
  )

  pub sort-Reordered : {l r : List A} → Reordered l r → sort less l ≡ sort less r
  unfolding sort
  sort-Reordered none_left = refl
  sort-Reordered (same_head a d) = ap (insert less a) (sort-Reordered d)
  sort-Reordered (exchange a b l) = insert_comm a b (sort less l)
  sort-Reordered (two_steps d e) = sort-Reordered d ∙ sort-Reordered e
