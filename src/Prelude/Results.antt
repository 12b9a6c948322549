-- ===== src/Prelude/Results.antt =====
-- Go's `(value, error)` results, and actions on a state that may fail.
use mathlib.Core.Option.{some}
use mathlib.Core.Path.{◌≡◌, refl}
use mathlib.Core.Bool.{Bool, false}
use mathlib.Core.List.{◌++◌}
use consent_owner_resolver.Prelude.Text.{Bytes}

-- An `error`: its message, and whether `errors.As` finds a `BadRequestError` in its chain.
pub record Error : Type 0 where
  pub message : Bytes
  pub bad_request : Bool

abbrev pub error : Bytes → Error
error m = record { message = m; bad_request = false }

-- `fmt.Errorf("...: %w", err)`: the prefix is added and the chain is kept.
abbrev pub wrap : Bytes → Error → Error
wrap prefix e = record e { message = prefix ++ e.message }

-- `panicked` is a run-time panic, such as an index out of range.
pub data Result {ℓ} (A : Type ℓ) : Type ℓ where
  ok : A → Result A
  err : Error → Result A
  panicked : Result A

module _ {ℓ κ} {A : Type ℓ} {B : Type κ} where
  -- The rest of a Go function behind `if err != nil { return err }`.
  infixl 5 ◌>>=◌
  abbrev pub ◌>>=◌ : Result A → (A → Result B) → Result B
  ok value >>= rest = rest value
  err failure >>= rest = err failure
  panicked >>= rest = panicked

  -- A function that returns has returned in each of its calls.
  pub >>=-eq-ok :
      (call : Result A) (rest : A → Result B) {out : B}
      → call >>= rest ≡ ok out
      → (value : A) × (call ≡ ok value) × (rest value ≡ ok out)
  >>=-eq-ok (ok value) rest returned = (value, refl, returned)
  >>=-eq-ok (err failure) rest returned = cc
  >>=-eq-ok panicked rest returned = cc

pub ok-injective {ℓ} : {A : Type ℓ} {a b : A} → ok a ≡ ok b → a ≡ b
ok-injective h = cc

pub some-injective {ℓ} : {A : Type ℓ} {a b : A} → some a ≡ some b → a ≡ b
some-injective h = cc
