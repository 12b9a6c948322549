-- ===== src/Settled.antt =====
-- Panics: what it is for a call to come back, with a value or an error.
pub mod Client
pub mod Leaves
pub mod Matchers
pub mod Patterns
pub mod Rules
pub mod Service
pub mod Concurrent
use consent_owner_resolver.Prelude
use consent_owner_resolver.Prelude.{
  ◌≡◌, ◌⊎◌, inl, inr, refl, Bool, true, false, Result, ok, err, panicked, Error, if◌then◌else◌,
}
use consent_owner_resolver.Prelude.Exec.{Exec, ◌>>=◌}

abbrev pub Settles : {A : Type 0} → Result A → Type 0
Settles (ok a) = Unit
Settles (err e) = Unit
Settles panicked = ⊥

pub Settles-cases :
    {A : Type 0} (r : Result A) → Settles r → ((a : A) × (r ≡ ok a)) ⊎ ((e : Error) × (r ≡ err e))
Settles-cases (ok a) h = inl (a, refl)
Settles-cases (err e) h = inr (e, refl)
Settles-cases panicked h = absurd h

pub if-Settles :
    {A : Type 0} (b : Bool) (x y : Result A) → Settles x → Settles y → Settles (if b then x else y)
if-Settles true x y hx hy = hx
if-Settles false x y hx hy = hy

pub bind-Settles :
    {A B : Type 0} (m : Result A) (f : A → Result B)
    → Settles m
    → ((a : A) → Settles (f a))
    → Settles (Prelude.◌>>=◌ m f)
bind-Settles (ok a) f hm hf = hf a
bind-Settles (err e) f hm hf = tt
bind-Settles panicked f hm hf = hm

settled_next :
    {S A B : Type 0} (m : Exec S A) (f : A → Exec S B) (s : S) (r : Result A × S)
    → m s ≡ r
    → Settles r.0
    → ((a : A) (t : S) → Settles (f a t).0)
    → Settles ((m >>= f) s).0
settled_next m f s (ok a, t) e hm hf = rw e (hf a t)
settled_next m f s (err x, t) e hm hf = rw e tt
settled_next m f s (panicked, t) e hm hf = absurd hm

-- The parts of a block.
pub exec-Settles :
    {S A B : Type 0} (m : Exec S A) (f : A → Exec S B) (s : S)
    → Settles (m s).0
    → ((a : A) (t : S) → Settles (f a t).0)
    → Settles ((m >>= f) s).0
exec-Settles m f s hm hf = settled_next m f s (m s) refl hm hf
