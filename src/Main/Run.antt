-- ===== src/Main/Run.antt =====
-- main.go: `run`, with the goroutine that serves, as a step relation, and the end of `main`. What
-- `Serve` and `Shutdown` return is the environment's choice, as is the moment of the signal.
pub mod Running
pub mod Ends
use consent_owner_resolver.Prelude.{
  ℕ, ◌+◌, Bool, true, false, Option, none, some, List, [], ◌∷◌, ◌++◌, ◌≡◌, Bytes, str, ◌==◌,
  if◌then◌else◌, Result, ok, err, panicked,
}
use consent_owner_resolver.Go.Library.{Library}
use consent_owner_resolver.Rules.{ConfigResolver}
use consent_owner_resolver.Resolve.{resolve}
use consent_owner_resolver.Main.{Settings, Server, new_server, env_auth_token}

-- Where `run` stands: in the `select`, in `Shutdown`, at the last receive, or behind its return.
pub data Phase : Type 0 where
  selecting : Phase
  shutting_down : Phase
  awaiting : Phase
  returned : Option Bytes → Phase
  crashed : Phase

-- What `Serve` returns.
pub data Outcome : Type 0 where
  server_closed : Outcome
  broken : Bytes → Outcome

-- The error that the goroutine sends.
unfoldable pub sent_error : Outcome → Option Bytes
sent_error server_closed = none
sent_error (broken e) = some e

-- `serving` while the goroutine is in `Serve`; `serve_err` is the channel, which holds one error.
pub record Process (S : Type 0) : Type 0 where
  pub server : Option (Server S)
  pub serving : Bool
  pub serve_err : Option (Option Bytes)
  pub cancelled : Bool
  pub phase : Phase
  pub log : List Bytes

-- The configuration is loaded before anything is served.
unfoldable pub run :
    Library → {S : Type 0} → Settings → Bool → Result (ConfigResolver S) → Process S
unfolding new_server
run lib s cancelled (ok res) = record {
  server = some (new_server s (resolve lib res));
  serving = true;
  serve_err = none;
  cancelled = cancelled;
  phase = selecting;
  log =
      if s.auth_token == []
      then (str "[owner-resolver] "
          ++ env_auth_token
          ++ str " is not set: /resolve is unauthenticated and must be reachable only by the"
          ++ str " consent-plugin (restrict it with a NetworkPolicy)")
        ∷ []
      else [];
}
run lib s cancelled (err e) = record {
  server = none;
  serving = false;
  serve_err = none;
  cancelled = cancelled;
  phase = returned (some (str "load config: " ++ e.message));
  log = [];
}
run lib s cancelled panicked = record {
  server = none;
  serving = false;
  serve_err = none;
  cancelled = cancelled;
  phase = crashed;
  log = [];
}

-- Whether `Shutdown` may have been called: only then `Serve` returns that the server is closed.
abbrev pub is_closing : Phase → Bool
is_closing selecting = false
is_closing shutting_down = true
is_closing awaiting = true
is_closing (returned e) = true
is_closing crashed = false

pub data Step {S : Type 0} (p : Process S) : Process S → Type 0 where
  signal : p.cancelled ≡ false → Step p (record p { cancelled = true })
  serve_breaks :
      (e : Bytes)
      → p.serving ≡ true
      → p.serve_err ≡ none
      → Step p (record p { serving = false; serve_err = some (sent_error (broken e)) })
  serve_closes :
      p.serving ≡ true
      → p.serve_err ≡ none
      → is_closing p.phase ≡ true
      → Step p (record p { serving = false; serve_err = some (sent_error server_closed) })
  receive :
      (e : Option Bytes)
      → p.phase ≡ selecting
      → p.serve_err ≡ some e
      → Step p (record p { serve_err = none; phase = returned e })
  done : p.phase ≡ selecting → p.cancelled ≡ true → Step p (record p { phase = shutting_down })
  shut_down : p.phase ≡ shutting_down → Step p (record p { phase = awaiting })
  shutdown_fails :
      (e : Bytes)
      → p.phase ≡ shutting_down
      → Step p (record p { phase = returned (some (str "shutdown: " ++ e)) })
  receive_last :
      (e : Option Bytes)
      → p.phase ≡ awaiting
      → p.serve_err ≡ some e
      → Step p (record p { serve_err = none; phase = returned e })

-- `n` steps.
pub data Steps {S : Type 0} (p : Process S) : ℕ → Process S → Type 0 where
  begin : Steps p 0 p
  go_on : {n : ℕ} {q r : Process S} → Steps p n q → Step q r → Steps p (n + 1) r

-- The last line that `main` logs, and its exit code.
unfoldable pub exit : Option Bytes → Bytes × ℕ
exit none = (str "[owner-resolver] stopped", 0)
exit (some e) = (str "[owner-resolver] " ++ e, 1)

-- Where the address cannot be listened on, `main` ends without running.
unfoldable pub listen_failure : Settings → Bytes → Bytes × ℕ
listen_failure s e = (str "[owner-resolver] listen on " ++ s.listen_addr ++ str ": " ++ e, 1)
