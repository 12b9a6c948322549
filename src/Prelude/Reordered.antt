-- ===== src/Prelude/Reordered.antt =====
-- Go iterates over a map in no fixed order: the lists of one map's entries are reorderings of one
-- another.
use mathlib.Core.Path.{◌≡◌, refl, sym, ap, ◌∙◌}
use mathlib.Core.Bool.{Bool, true}
use mathlib.Core.List.{List, [], ◌∷◌, map}
use mathlib.Core.Logic.{◌↔◌}
use mathlib.Core.Option.{Option, none, some}
use native.Mathlib.Omega.{arith}
use consent_owner_resolver.Prelude.Tests.{if◌then◌else◌}
use consent_owner_resolver.Prelude.Text.{Bytes, ◌==◌}
use consent_owner_resolver.Prelude.Dict.{Dict, get}

module _ {A : Type 0} where
  pub data Reordered : List A → List A → Type 0 where
    none_left : Reordered [] []
    same_head : (a : A) {l r : List A} → Reordered l r → Reordered (a ∷ l) (a ∷ r)
    exchange : (a b : A) (l : List A) → Reordered (a ∷ b ∷ l) (b ∷ a ∷ l)
    two_steps : {l m r : List A} → Reordered l m → Reordered m r → Reordered l r

pub Reordered-map :
    {A B : Type 0} (f : A → B) {l r : List A} → Reordered l r → Reordered (map f l) (map f r)
Reordered-map f none_left = none_left
Reordered-map f (same_head a d) = same_head (f a) (Reordered-map f d)
Reordered-map f (exchange a b l) = exchange (f a) (f b) (map f l)
Reordered-map f (two_steps d e) = two_steps (Reordered-map f d) (Reordered-map f e)

-- A table of entries, and its keys compared by a test.
module _ {K V : Type 0} (same : K → K → Bool) where
  unfoldable pub find : List (K × V) → K → Option V
  find [] k = none
  find ((j, v) ∷ table) k = if same j k then some v else find table k

  -- No key has two entries.
  abbrev pub IsTable : List (K × V) → Type 0
  IsTable [] = Unit
  IsTable ((k, v) ∷ table) = (find table k ≡ none) × IsTable table

  module _ (same_iff : (a b : K) → (same a b ≡ true) ↔ (a ≡ b)) where
    -- Reordered, a table is a table, in which the same is found.
    pub find-Reordered :
        {l r : List (K × V)}
        → Reordered l r
        → IsTable l
        → IsTable r × ((k : K) → find l k ≡ find r k)
    unfolding find
    find-Reordered none_left h = (tt, λ k. refl)
    find-Reordered (same_head (j, v) d) h =
        let (table, found) = find-Reordered d h.1 in
        ((sym (found j) ∙ h.0, table), λ k. ap (λ o. if same j k then some v else o) (found k))
    find-Reordered (exchange (i, v) (j, w) l) h = (
      ground (arith, same_iff i j, same_iff j i),
      λ k. ground (arith, same_iff i k, same_iff j k, same_iff i j, same_iff j i),
    )
    find-Reordered (two_steps d e) h =
        let (middle, first) = find-Reordered d h in
        let (last, second) = find-Reordered e middle in (last, λ k. first k ∙ second k)

pub get-find : {V : Type 0} (d : Dict V) (k : Bytes) → get d k ≡ find ◌==◌ d k
unfolding get find
get-find [] k = refl
get-find ((j, v) ∷ d) k = ground (arith, get-find d k)
