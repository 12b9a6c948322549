-- ===== src/Examples/Process.antt =====
-- A process that is told to stop, and one with a limit that is no number.
use consent_owner_resolver.Prelude.{
  ℕ, ◌≡◌, ◌↔◌, ◌⊎◌, refl, true, false, none, some, [], Bytes, str, ◌==◌, if◌then◌else◌, ok,
}
use consent_owner_resolver.Prelude.Int.{ℤ, pos, is_positive}
use consent_owner_resolver.Go.Strconv.{atoi}
use consent_owner_resolver.Prelude.Exec.{Exec}
use consent_owner_resolver.Types.{ResolveRequest, ResolveResult}
use consent_owner_resolver.Rules.{ConfigResolver}
use consent_owner_resolver.Main.{Settings, env_max_body_bytes, settings_from_env, new_server}
use consent_owner_resolver.Main.Limits.{limit_of, new_server-limit}
use consent_owner_resolver.Main.Run.{
  awaiting, shutting_down, returned, Process, run, sent_error, signal, done, shut_down,
  serve_closes, receive_last, Steps, begin, go_on,
}
use consent_owner_resolver.Main.Run.Ends.{Returns, run-Returns}
use consent_owner_resolver.Examples.{go, two_claims}

abbrev settings : Settings
settings = record {
  config_path = str "config.json";
  listen_addr = str ":8080";
  max_body_bytes = pos 0;
  auth_token = str "secret";
  debug = false;
}

abbrev resolver : ConfigResolver ℕ
resolver = record { default_consent_required = true; default_scheme = str "identifier"; rules = [] }

abbrev started : Process ℕ
started = run go settings false (ok resolver)

abbrev told : Process ℕ
told = record started { cancelled = true }

abbrev stopping : Process ℕ
stopping = record told { phase = shutting_down }

abbrev waiting : Process ℕ
waiting = record stopping { phase = awaiting }

abbrev closed : Process ℕ
closed = record waiting { serving = false; serve_err = some none }

abbrev stopped : Process ℕ
stopped = record closed { serve_err = none; phase = returned none }

one-Steps : Steps started 1 told
unfolding run
one-Steps = go_on begin (signal refl)

five-Steps : Steps started 5 stopped
unfolding run sent_error
five-Steps =
    go_on
      (go_on (go_on (go_on one-Steps (done refl refl)) (shut_down refl))
        (serve_closes refl refl refl))
      (receive_last none refl refl)

run-Returns_example : Returns told
run-Returns_example = run-Returns go settings resolver false 1 told one-Steps refl

abbrev environment : Bytes → Bytes
environment key = if key == env_max_body_bytes then str "5 MiB" else []

abbrev answers : ResolveRequest → Exec ℕ ResolveResult
answers req t = (ok two_claims, t)

new_server-limit_example :
    let (s, log) = settings_from_env environment go.quote in
    (is_positive (new_server s answers).handler.max_body_bytes ≡ true)
    × ((new_server s answers).handler.max_body_bytes
        ≡ limit_of (atoi (environment env_max_body_bytes)))
    × ((log ≡ []) ↔ (
        (environment env_max_body_bytes ≡ [])
        ⊎ ((n : ℤ) × (atoi (environment env_max_body_bytes) ≡ some n))))
new_server-limit_example = new_server-limit go.quote environment answers
