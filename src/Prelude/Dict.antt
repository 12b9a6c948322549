-- ===== src/Prelude/Dict.antt =====
-- Go's `map[string]V` as an association list with one entry for each key.
use mathlib.Core.Path.{◌≡◌, refl}
use mathlib.Core.List.{List, [], ◌∷◌}
use mathlib.Core.Option.{Option, none, some}
use native.Mathlib.Omega.{arith}
use consent_owner_resolver.Prelude.Tests.{if◌then◌else◌}
use consent_owner_resolver.Prelude.Text.{Bytes, ◌==◌, eq_iff}

abbrev pub Dict {ℓ} : Type ℓ → Type ℓ
Dict V = List (Bytes × V)

module _ {ℓ} {V : Type ℓ} where
  unfoldable pub get : Dict V → Bytes → Option V
  get [] k = none
  get ((j, v) ∷ d) k = if j == k then some v else get d k

  -- An assignment to a key that is there replaces its value.
  unfoldable pub put : Dict V → Bytes → V → Dict V
  put [] k v = (k, v) ∷ []
  put ((j, w) ∷ d) k v = if j == k then (j, v) ∷ d else (j, w) ∷ put d k v

  pub get-put :
      (d : Dict V) (k j : Bytes) (v : V) → get (put d k v) j ≡ (if k == j then some v else get d j)
  unfolding get put
  get-put [] k j v = refl
  get-put ((i, w) ∷ d) k j v = ground (arith, eq_iff k j, eq_iff i k, eq_iff i j, get-put d k j v)
