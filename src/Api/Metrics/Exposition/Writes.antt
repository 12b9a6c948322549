-- ===== src/Api/Metrics/Exposition/Writes.antt =====
-- Laws of metricsWriter in internal/api/metrics.go: which lines reach the writer.
use consent_owner_resolver.Prelude.{
  ◌≡◌, refl, Option, none, some, List, [], ◌∷◌, Bytes, Option-cases, inl, inr,
}
use consent_owner_resolver.Api.Floats.{Floats}
use consent_owner_resolver.Api.Metrics.{Metrics}
use consent_owner_resolver.Api.Metrics.Exposition.{print, print_all, write_to, exposition}

module _ {W : Type 0} (write : Bytes → W → Option Bytes × W) where
  -- Lines written to `w` one after the other, up to the first that fails: the error, if there is
  -- one, and the writer afterwards.
  pub data Written : List Bytes → W → Option Bytes × W → Type 0 where
    finished : (w : W) → Written [] w (none, w)
    stopped :
        (text : Bytes) (texts : List Bytes) (w : W) (e : Bytes)
        → (write text w).0 ≡ some e
        → Written (text ∷ texts) w (some e, (write text w).1)
    continued :
        (text : Bytes) (texts : List Bytes) (w : W) (r : Option Bytes × W)
        → (write text w).0 ≡ none
        → Written texts (write text w).1 r
        → Written (text ∷ texts) w r

  latched :
      (e : Bytes) (texts : List Bytes) (w : W)
      → print_all write texts (record { w = w; failure = some e })
        ≡ record { w = w; failure = some e }
  unfolding print_all print
  latched e [] w = refl
  latched e (text ∷ texts) w = latched e texts w

  print_all-Written :
      (texts : List Bytes) (w : W)
      → (let mw = print_all write texts (record { w = w; failure = none }) in
          Written texts w (mw.failure, mw.w))
  unfolding print_all print
  print_all-Written [] w = finished w
  print_all-Written (text ∷ texts) w = elim (Option-cases (write text w).0) [
    | inl fine ↦
        rw (print_all, fine)
          (continued text texts w _ fine (print_all-Written texts (write text w).1))
    | inr (e, bad) ↦
        rw (print_all, bad, latched e texts (write text w).1) (stopped text texts w e bad)
  ]

  -- Rendering the metrics writes the lines of the exposition in order, up to the first that cannot
  -- be written: nothing is written behind it, and its error is the one returned; without such a line
  -- all are written and no error is returned.
  pub write_to-Written :
      (quote : Bytes → Bytes) {Fl : Type 0} (fl : Floats Fl) (m : Metrics Fl) (w : W)
      → Written (exposition quote fl m) w (write_to write quote fl m w)
  unfolding write_to
  write_to-Written quote fl m w = print_all-Written (exposition quote fl m) w
