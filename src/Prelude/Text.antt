-- ===== src/Prelude/Text.antt =====
-- Go strings: sequences of bytes, compared byte by byte.
use Prim.Native.Nat.{ℕ}
use Prim.Native.Char.{code}
use Prim.Native.String.{String}
use mathlib.Core.Path.{◌≡◌, refl}
use mathlib.Core.Logic.{◌↔◌}
use mathlib.Core.Bool.{Bool, true, false, ◌&&◌}
use mathlib.Core.List.{List, [], ◌∷◌}
use native.Mathlib.Omega.{arith}
use consent_owner_resolver.Prelude.Tests.{eqb}

abbrev pub Bytes : Type 0
Bytes = List ℕ

-- The bytes of an ASCII literal.
unfoldable pub str : String → Bytes
str String.[] = []
str (String.◌∷◌ c s) = code c ∷ str s

infix 50 ◌==◌
unfoldable pub ◌==◌ : Bytes → Bytes → Bool
[] == [] = true
[] == (b ∷ t) = false
(a ∷ s) == [] = false
(a ∷ s) == (b ∷ t) = eqb a b && s == t

pub eq_refl : (s : Bytes) → (s == s) ≡ true
unfolding ◌==◌
eq_refl [] = refl
eq_refl (a ∷ s) = ground (arith, eq_refl s)

pub eq-true : (s t : Bytes) → (s == t) ≡ true → s ≡ t
unfolding ◌==◌
eq-true [] [] h = refl
eq-true [] (b ∷ t) h = cc
eq-true (a ∷ s) [] h = cc
eq-true (a ∷ s) (b ∷ t) h = ground (arith, eq-true s t)

pub eq_iff : (s t : Bytes) → ((s == t) ≡ true) ↔ (s ≡ t)
eq_iff s t = (eq-true s t, λ e. rw e (eq_refl t))

-- `strings.HasPrefix`.
unfoldable pub has_prefix : Bytes → Bytes → Bool
has_prefix s [] = true
has_prefix [] (b ∷ p) = false
has_prefix (a ∷ s) (b ∷ p) = eqb a b && has_prefix s p
