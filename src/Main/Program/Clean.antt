-- ===== src/Main/Program/Clean.antt =====
-- The exit code of main.go.
use consent_owner_resolver.Prelude.{
  ℕ, ◌≡◌, refl, sym, ap, ◌∙◌, Bool, true, false, Option, none, some, Bytes, str, Result, ok, err,
  panicked,
}
use consent_owner_resolver.Go.Library.{Library}
use consent_owner_resolver.Cache.{Facade}
use consent_owner_resolver.Rules.{ConfigResolver}
use consent_owner_resolver.Config.{load}
use consent_owner_resolver.Main.{Settings}
use consent_owner_resolver.Main.Run.{
  Phase, selecting, shutting_down, awaiting, returned, crashed, Process, run, Step, signal,
  serve_breaks, serve_closes, receive, done, shut_down, shutdown_fails, receive_last, Steps, begin,
  go_on, exit, listen_failure,
}
use consent_owner_resolver.Main.Run.Ends.{run_clean}
use consent_owner_resolver.Main.Program.{Outside, settings, begun, Exits, at_listen, at_return}

is_clean : Phase → Bool
is_clean (returned none) = true
is_clean (returned (some e)) = false
is_clean selecting = false
is_clean shutting_down = false
is_clean awaiting = false
is_clean crashed = false

is_open : Phase → Bool
is_open selecting = true
is_open shutting_down = true
is_open awaiting = true
is_open (returned e) = false
is_open crashed = false

-- A process that has nothing to serve, and has ended with an error.
record IsOver {S : Type 0} (p : Process S) : Type 0 where
  unclean : is_clean p.phase ≡ false
  closed : is_open p.phase ≡ false
  idle : p.serving ≡ false

Step-IsOver : {S : Type 0} {p q : Process S} → Step p q → IsOver p → IsOver q
unfolding is_open
Step-IsOver (signal a) h = record { unclean = h.unclean; closed = h.closed; idle = h.idle }
Step-IsOver (serve_breaks e a b) h = cc (sym a ∙ h.idle)
Step-IsOver (serve_closes a b c) h = cc (sym a ∙ h.idle)
Step-IsOver (receive e a b) h = cc (sym (ap is_open a) ∙ h.closed)
Step-IsOver (done a b) h = cc (sym (ap is_open a) ∙ h.closed)
Step-IsOver (shut_down a) h = cc (sym (ap is_open a) ∙ h.closed)
Step-IsOver (shutdown_fails e a) h = cc (sym (ap is_open a) ∙ h.closed)
Step-IsOver (receive_last e a b) h = cc (sym (ap is_open a) ∙ h.closed)

Steps-IsOver :
    {S : Type 0} {p : Process S} {n : ℕ} {q : Process S} → Steps p n q → IsOver p → IsOver q
Steps-IsOver begin h = h
Steps-IsOver (go_on steps step) h = Step-IsOver step (Steps-IsOver steps h)

over-unclean : {S : Type 0} {p : Process S} → IsOver p → p.phase ≡ returned none → ⊥
unfolding is_clean
over-unclean h clean = cc (sym (ap is_clean clean) ∙ h.unclean)

module _ (lib : Library) {S : Type 0} (s : Settings) (cancelled : Bool) where
  run-loaded :
      (r : Result (ConfigResolver S)) (n : ℕ) (p : Process S)
      → Steps (run lib s cancelled r) n p
      → p.phase ≡ returned none
      → (res : ConfigResolver S) × (r ≡ ok res) × (p.cancelled ≡ true)
  unfolding run is_clean is_open
  run-loaded (ok res) n p steps clean = (res, refl, run_clean lib s res cancelled n p steps clean)
  run-loaded (err e) n p steps clean = absurd (
      over-unclean (Steps-IsOver steps (record { unclean = refl; closed = refl; idle = refl }))
        clean)
  run-loaded panicked n p steps clean = absurd (
      over-unclean (Steps-IsOver steps (record { unclean = refl; closed = refl; idle = refl }))
        clean)

-- The code of an exit without an error.
exit-code : (e : Option Bytes) → (exit e).1 ≡ 0 → e ≡ none
unfolding exit
exit-code none h = refl
exit-code (some e) h = cc

-- A process that exits with the code 0 could listen on its address, has loaded its configuration, and
-- has been given the signal by the time it exits; its last line says that it has stopped.
pub Exits-clean :
    (lib : Library) {W : Type 0} (o : Outside W) (told : Bool) (line : Bytes)
    → Exits lib o told (line, 0)
    → (line ≡ str "[owner-resolver] stopped")
      × (o.listen (settings lib o).listen_addr ≡ none)
      × ((res : ConfigResolver (Facade W)) × (load lib o.network o.read_file o.decode
              (settings lib o).config_path
            ≡ ok res))
      × (told ≡ true)
unfolding begun listen_failure exit
Exits-clean lib o told line (at_listen e refused end) = cc (ap (λ x. x.1) end)
Exits-clean lib o told line (at_return cancelled n p e listening steps back given end) =
    let none_left = exit-code e (sym (ap (λ x. x.1) end)) in
    let (res, loaded, signalled) =
      run-loaded lib (settings lib o) cancelled _ n p steps (back ∙ ap returned none_left) in
    (
      ap (λ x. x.0) end ∙ ap (λ e. (exit e).0) none_left,
      listening,
      (res, loaded),
      given ∙ signalled,
    )
