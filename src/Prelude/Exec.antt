-- ===== src/Prelude/Exec.antt =====
-- Go functions that change a state and may fail: the state is what the callers see afterwards, also
-- after an error.
use mathlib.Core.Path.{◌≡◌, refl}
use consent_owner_resolver.Prelude.Results.{Result, ok, err, panicked}

abbrev pub Exec {ℓ κ} : Type ℓ → Type κ → Type (ℓ ⊔ κ)
Exec S A = S → Result A × S

abbrev next {ℓ κ μ} :
    {S : Type ℓ} {A : Type κ} {B : Type μ} → Result A × S → (A → Exec S B) → Result B × S
next (ok a, s) f = f a s
next (err e, s) f = (err e, s)
next (panicked, s) f = (panicked, s)

infixl 5 ◌>>=◌
abbrev pub ◌>>=◌ {ℓ κ μ} :
    {S : Type ℓ} {A : Type κ} {B : Type μ} → Exec S A → (A → Exec S B) → Exec S B
◌>>=◌ m f s = next (m s) f

abbrev pub lift {ℓ κ} : {S : Type ℓ} {A : Type κ} → Result A → Exec S A
lift r s = (r, s)

module _ {ℓ κ μ} {S : Type ℓ} {A : Type κ} {B : Type μ} where
  next-eq-ok :
      (r : Result A × S) (f : A → Exec S B) {b : B}
      → (next r f).0 ≡ ok b
      → (a : A) × (r.0 ≡ ok a) × ((f a r.1).0 ≡ ok b)
  next-eq-ok (ok a, t) f e = (a, refl, e)
  next-eq-ok (err x, t) f e = cc
  next-eq-ok (panicked, t) f e = cc

  -- A block that returns has returned in each of its parts.
  pub >>=-eq-ok :
      (m : Exec S A) (f : A → Exec S B) (s : S) {b : B}
      → ((m >>= f) s).0 ≡ ok b
      → (a : A) × ((m s).0 ≡ ok a) × ((f a (m s).1).0 ≡ ok b)
  >>=-eq-ok m f s h = next-eq-ok (m s) f h

  next-state {ν} :
      (P : S → Type ν) (r : Result A × S) (f : A → Exec S B)
      → P r.1
      → ((a : A) → r.0 ≡ ok a → (s : S) → P s → P (f a s).1)
      → P (next r f).1
  next-state P (ok a, t) f h k = k a refl t h
  next-state P (err x, t) f h k = h
  next-state P (panicked, t) f h k = h

  -- What both parts of a block keep of the state, the block keeps.
  pub >>=-state {ν} :
      (P : S → Type ν) (m : Exec S A) (f : A → Exec S B) (s : S)
      → P (m s).1
      → ((a : A) → (m s).0 ≡ ok a → (t : S) → P t → P (f a t).1)
      → P ((m >>= f) s).1
  >>=-state P m f s h k = next-state P (m s) f h k
