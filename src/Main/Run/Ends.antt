-- ===== src/Main/Run/Ends.antt =====
-- How `run` of main.go ends.
use consent_owner_resolver.Prelude.{
  ℕ, zero, suc, ◌≤◌, ◌≡◌, ◌⊎◌, inl, inr, refl, ap, Bool, true, not, Option, none, arith, Bytes,
}
use consent_owner_resolver.Go.Library.{Library}
use consent_owner_resolver.Rules.{ConfigResolver}
use consent_owner_resolver.Prelude.{ok}
use consent_owner_resolver.Main.{Settings}
use consent_owner_resolver.Main.Run.{
  Phase, selecting, shutting_down, awaiting, returned, crashed, Process, run, is_closing, Step,
  signal, serve_breaks, serve_closes, receive, done, shut_down, shutdown_fails, receive_last, Steps,
}
use consent_owner_resolver.Main.Run.Running.{
  one_bound, left, Accounted, IsRunning, Step-left, Steps-left, Step-IsRunning, Steps-IsRunning,
}

-- A further step of `run`, or its return.
abbrev Continues : {S : Type 0} → Process S → Type 0
Continues p = ((q : Process _) × Step p q) ⊎ ((e : Option Bytes) × (p.phase ≡ returned e))

from_awaiting :
    {S : Type 0} (p : Process S)
    → p.phase ≡ awaiting
    → Accounted p.serving p.serve_err p.phase
    → Continues p
from_awaiting p a (inl (serving, empty)) = inl (_, serve_closes serving empty (ap is_closing a))
from_awaiting p a (inr (inl (e, sent))) = inl (_, receive_last e a sent)
from_awaiting p a (inr (inr back)) = inr back

continues :
    {S : Type 0} (p : Process S) (phase : Phase)
    → p.phase ≡ phase
    → p.cancelled ≡ true
    → IsRunning p
    → Continues p
continues p selecting a c h = inl (_, done a c)
continues p shutting_down a c h = inl (_, shut_down a)
continues p awaiting a c h = from_awaiting p a h.accounted
continues p (returned e) a c h = inr (e, a)
continues p crashed a c h = absurd (rw a at h.settled)

-- In every order of steps, a state is reached in which `run` has returned; until then there is a step
-- to make.
pub data Returns {S : Type 0} : Process S → Type 0 where
  now : (p : Process S) (e : Option Bytes) → p.phase ≡ returned e → Returns p
  later : (p q : Process S) → Step p q → ((r : Process S) → Step p r → Returns r) → Returns p

told-Step : {S : Type 0} {p q : Process S} → Step p q → p.cancelled ≡ true → q.cancelled ≡ true
told-Step (signal a) h = refl
told-Step (serve_breaks e a b) h = h
told-Step (serve_closes a b c) h = h
told-Step (receive e a b) h = h
told-Step (done a b) h = h
told-Step (shut_down a) h = h
told-Step (shutdown_fails e a) h = h
told-Step (receive_last e a b) h = h

told-Returns :
    {S : Type 0} (n : ℕ) (p : Process S) → left p ≤ n → p.cancelled ≡ true → IsRunning p → Returns p
told-Returns zero p few told h = elim (continues p p.phase refl told h) [
  | inl (q, step) ↦ absurd (omega (arith, Step-left step))
  | inr (e, back) ↦ now p e back
]
told-Returns (suc n) p few told h = elim (continues p p.phase refl told h) [
  | inl (q, step) ↦ later p q step (λ r next.
      told-Returns n r (omega (arith, Step-left next)) (told-Step next told)
        (Step-IsRunning next h))
  | inr (e, back) ↦ now p e back
]

module _ (lib : Library) {S : Type 0} (s : Settings) (res : ConfigResolver S)
    (cancelled : Bool) where
  run-IsRunning : IsRunning (run lib s cancelled (ok res))
  unfolding run
  run-IsRunning = record { settled = tt; accounted = inl (refl, refl); clean = λ e. cc }

  -- With a configuration that loads, `run` and its server make at most five steps in all, in whatever
  -- order.
  pub run-bounded : (n : ℕ) (p : Process S) → Steps (run lib s cancelled (ok res)) n p → n ≤ 5
  unfolding run
  run-bounded n p steps = omega (arith, Steps-left steps, one_bound (not cancelled))

  -- With a configuration that loads: from every state that `run` comes to and in which the signal has
  -- been given, `run` returns, in whatever order the steps are made.
  pub run-Returns :
      (n : ℕ) (p : Process S)
      → Steps (run lib s cancelled (ok res)) n p
      → p.cancelled ≡ true
      → Returns p
  run-Returns n p steps told =
      told-Returns (left p) p (omega arith) told (Steps-IsRunning steps run-IsRunning)

  -- With a configuration that loads, `run` returns without an error only after a signal.
  pub run_clean :
      (n : ℕ) (p : Process S)
      → Steps (run lib s cancelled (ok res)) n p
      → p.phase ≡ returned none
      → p.cancelled ≡ true
  run_clean n p steps clean = rw clean at (Steps-IsRunning steps run-IsRunning).settled
