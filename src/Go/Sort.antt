-- ===== src/Go/Sort.antt =====
-- Package `sort`, over lists: `sort.Slice` and `sort.Strings`, as an insertion sort. The order in
-- which they leave elements that are equal does not show in the program, which sorts distinct keys.
pub mod Laws
pub mod Stable
use consent_owner_resolver.Prelude.{Bool, true, false, List, [], ◌∷◌, Bytes, ltb, if◌then◌else◌}

module _ {A : Type 0} (less : A → A → Bool) where
  pub insert : A → List A → List A
  insert x [] = x ∷ []
  insert x (y ∷ ys) = if less y x then y ∷ insert x ys else x ∷ y ∷ ys

  unfoldable pub sort : List A → List A
  unfolding insert
  sort [] = []
  sort (x ∷ xs) = insert x (sort xs)

-- `<` on strings.
unfoldable pub less_string : Bytes → Bytes → Bool
less_string s [] = false
less_string [] (b ∷ t) = true
less_string (a ∷ s) (b ∷ t) =
    let rest = less_string s t in if ltb a b then true else if ltb b a then false else rest
