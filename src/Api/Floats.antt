-- ===== src/Api/Floats.antt =====
-- Go's float64, as far as internal/api/metrics.go uses it: the type and its operations are
-- parameters.
use consent_owner_resolver.Prelude.{Bool, Bytes}
use consent_owner_resolver.Prelude.Int.{ℤ}

pub record Floats (Fl : Type 0) : Type 0 where
  -- a literal of the source
  pub literal : Bytes → Fl
  pub add : Fl → Fl → Fl
  -- `<=`
  pub at_most : Fl → Fl → Bool
  -- `elapsed.Seconds()`, of nanoseconds
  pub seconds : ℤ → Fl
  -- `strconv.FormatFloat(x, 'g', -1, 64)`
  pub format : Fl → Bytes
