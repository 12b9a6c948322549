-- ===== src/Main/Run/Running.antt =====
-- The states that `run` of main.go comes to, and the steps that are left in them.
use consent_owner_resolver.Prelude.{
  ℕ, ◌+◌, ◌≤◌, ◌≡◌, ◌⊎◌, inl, inr, refl, sym, ap, ◌∙◌, Bool, true, false, not, Option, none, some,
  arith, Bytes, if◌then◌else◌,
}
use consent_owner_resolver.Main.Run.{
  Phase, selecting, shutting_down, awaiting, returned, crashed, Process, is_closing, sent_error,
  Step, signal, serve_breaks, serve_closes, receive, done, shut_down, shutdown_fails, receive_last,
  Steps, begin, go_on,
}

-- The steps that are left to a phase.
abbrev pub rank : Phase → ℕ
rank selecting = 3
rank shutting_down = 2
rank awaiting = 1
rank (returned e) = 0
rank crashed = 0

abbrev pub one_if : Bool → ℕ
one_if b = if b then 1 else 0

pub one_bound : (b : Bool) → one_if b ≤ 1
one_bound b = ground arith

abbrev pub left : {S : Type 0} → Process S → ℕ
left p = rank p.phase + one_if p.serving + one_if (not p.cancelled)

pub Step-left : {S : Type 0} {p q : Process S} → Step p q → left q + 1 ≤ left p
Step-left (signal a) = ground (arith, a)
Step-left (serve_breaks e a b) = ground (arith, a)
Step-left (serve_closes a b c) = ground (arith, a)
Step-left (receive e a b) = ground (arith, ap rank a)
Step-left (done a b) = ground (arith, ap rank a)
Step-left (shut_down a) = ground (arith, ap rank a)
Step-left (shutdown_fails e a) = ground (arith, ap rank a)
Step-left (receive_last e a b) = ground (arith, ap rank a)

pub Steps-left :
    {S : Type 0} {p : Process S} {n : ℕ} {q : Process S} → Steps p n q → n + left q ≤ left p
Steps-left begin = omega arith
Steps-left (go_on steps step) = omega (arith, Steps-left steps, Step-left step)

-- What a phase says of the signal.
abbrev pub Settled : Bool → Phase → Type 0
Settled cancelled selecting = Unit
Settled cancelled shutting_down = cancelled ≡ true
Settled cancelled awaiting = cancelled ≡ true
Settled cancelled (returned none) = cancelled ≡ true
Settled cancelled (returned (some e)) = Unit
Settled cancelled crashed = ⊥

-- The goroutine is serving, or has sent its error, or `run` has returned.
abbrev pub Accounted : Bool → Option (Option Bytes) → Phase → Type 0
Accounted serving channel phase =
    ((serving ≡ true) × (channel ≡ none))
    ⊎ ((e : Option Bytes) × (channel ≡ some e))
    ⊎ ((e : Option Bytes) × (phase ≡ returned e))

pub record IsRunning {S : Type 0} (p : Process S) : Type 0 where
  pub settled : Settled p.cancelled p.phase
  pub accounted : Accounted p.serving p.serve_err p.phase
  pub clean : p.serve_err ≡ some none → is_closing p.phase ≡ true

signalled : (phase : Phase) (c : Bool) → Settled c phase → Settled true phase
signalled selecting c h = tt
signalled shutting_down c h = refl
signalled awaiting c h = refl
signalled (returned none) c h = refl
signalled (returned (some e)) c h = tt
signalled crashed c h = h

abbrev is_returned : Phase → Bool
is_returned (returned e) = true
is_returned selecting = false
is_returned shutting_down = false
is_returned awaiting = false
is_returned crashed = false

moved :
    {b : Bool} {c : Option (Option Bytes)} {before : Phase} (after : Phase)
    → is_returned before ≡ false
    → Accounted b c before
    → Accounted b c after
moved after going (inl serving) = inl serving
moved after going (inr (inl sent)) = inr (inl sent)
moved after going (inr (inr (e, gone))) = cc (sym going ∙ ap is_returned gone)

pub Step-IsRunning : {S : Type 0} {p q : Process S} → Step p q → IsRunning p → IsRunning q
unfolding sent_error
Step-IsRunning {p = p} (signal a) h = record {
  settled = signalled p.phase p.cancelled h.settled;
  accounted = h.accounted;
  clean = h.clean;
}
Step-IsRunning (serve_breaks e a b) h = record {
  settled = h.settled;
  accounted = inr (inl (some e, refl));
  clean = λ x. cc;
}
Step-IsRunning (serve_closes a b c) h = record {
  settled = h.settled;
  accounted = inr (inl (none, refl));
  clean = λ x. c;
}
Step-IsRunning {p = p} (receive none a b) h = cc (sym (ap is_closing a) ∙ h.clean b)
Step-IsRunning (receive (some e) a b) h = record {
  settled = tt;
  accounted = inr (inr (some e, refl));
  clean = λ x. cc;
}
Step-IsRunning (done a b) h = record {
  settled = b;
  accounted = moved shutting_down (ap is_returned a) h.accounted;
  clean = λ x. refl;
}
Step-IsRunning (shut_down a) h = record {
  settled = rw a at h.settled;
  accounted = moved awaiting (ap is_returned a) h.accounted;
  clean = λ x. refl;
}
Step-IsRunning (shutdown_fails e a) h = record {
  settled = tt;
  accounted = inr (inr (_, refl));
  clean = λ x. refl;
}
Step-IsRunning (receive_last none a b) h = record {
  settled = rw a at h.settled;
  accounted = inr (inr (none, refl));
  clean = λ x. cc;
}
Step-IsRunning (receive_last (some e) a b) h = record {
  settled = tt;
  accounted = inr (inr (some e, refl));
  clean = λ x. cc;
}

pub Steps-IsRunning :
    {S : Type 0} {p : Process S} {n : ℕ} {q : Process S} → Steps p n q → IsRunning p → IsRunning q
Steps-IsRunning begin h = h
Steps-IsRunning (go_on steps step) h = Step-IsRunning step (Steps-IsRunning steps h)
