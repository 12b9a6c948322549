-- ===== src/Main.antt =====
-- main.go: the settings of the process, from its environment, and the server. `env` is `os.Getenv`,
-- which gives the empty text for a variable that is not set.
pub mod Limits
pub mod Run
pub mod Program
use consent_owner_resolver.Prelude.{
  ℕ, ◌*◌, Bool, true, false, Option, none, some, List, [], ◌∷◌, ◌++◌, Bytes, str, ◌==◌, not,
  if◌then◌else◌,
}
use consent_owner_resolver.Prelude.Exec.{Exec}
use consent_owner_resolver.Prelude.Int.{ℤ, pos}
use consent_owner_resolver.Go.Strconv.{atoi}
use consent_owner_resolver.Go.Fold.{equal_fold}
use consent_owner_resolver.Types.{ResolveRequest, ResolveResult}
use consent_owner_resolver.Api.Handler.{Options, Handler, new_handler}

abbrev pub env_config_path : Bytes
env_config_path = str "CONFIG_PATH"

abbrev pub env_listen_addr : Bytes
env_listen_addr = str "LISTEN_ADDR"

abbrev pub env_max_body_bytes : Bytes
env_max_body_bytes = str "MAX_BODY_BYTES"

abbrev pub env_auth_token : Bytes
env_auth_token = str "AUTH_TOKEN"

abbrev pub env_log_level : Bytes
env_log_level = str "LOG_LEVEL"

abbrev pub default_config_path : Bytes
default_config_path = str "/etc/owner-resolver/config.json"

abbrev pub default_listen_addr : Bytes
default_listen_addr = str ":8080"

abbrev pub log_level_debug : Bytes
log_level_debug = str "debug"

-- In nanoseconds.
abbrev second : ℕ
second = 1000000000

abbrev pub read_header_timeout : ℕ
read_header_timeout = 5 * second

abbrev pub read_timeout : ℕ
read_timeout = 15 * second

abbrev pub write_timeout : ℕ
write_timeout = 15 * second

abbrev pub idle_timeout : ℕ
idle_timeout = 60 * second

abbrev pub shutdown_timeout : ℕ
shutdown_timeout = 5 * second

pub record Settings : Type 0 where
  pub config_path : Bytes
  pub listen_addr : Bytes
  pub max_body_bytes : ℤ
  pub auth_token : Bytes
  pub debug : Bool

module _ (env : Bytes → Bytes) where
  unfoldable pub getenv : Bytes → Bytes → Bytes
  getenv key fallback = if not (env key == []) then env key else fallback

  -- The integer, and what is logged.
  unfoldable pub parsed_int : (Bytes → Bytes) → Bytes → ℤ → Option ℤ → ℤ × List Bytes
  parsed_int quote key fallback (some n) = (n, [])
  parsed_int quote key fallback none = (
    fallback,
    (str "[owner-resolver] invalid " ++ key ++ str "=" ++ quote (env key) ++ str ", using default")
        ∷ [],
  )

  unfoldable pub getenv_int : (Bytes → Bytes) → Bytes → ℤ → ℤ × List Bytes
  unfolding parsed_int
  getenv_int quote key fallback =
      if not (env key == []) then parsed_int quote key fallback (atoi (env key)) else (fallback, [])

  -- `settingsFromEnv`, and what is logged.
  unfoldable pub settings_from_env : (Bytes → Bytes) → Settings × List Bytes
  unfolding getenv getenv_int
  settings_from_env quote =
      let (max_body_bytes, log) = getenv_int quote env_max_body_bytes (pos 0) in
      (
        record {
          config_path = getenv env_config_path default_config_path;
          listen_addr = getenv env_listen_addr default_listen_addr;
          max_body_bytes = max_body_bytes;
          auth_token = env env_auth_token;
          debug = equal_fold (env env_log_level) log_level_debug;
        },
        log,
      )

-- `http.Server`, as far as it is set up.
pub record Server (S : Type 0) : Type 0 where
  pub handler : Handler S
  pub read_header : ℕ
  pub read : ℕ
  pub write : ℕ
  pub idle : ℕ

unfoldable pub new_server :
    {S : Type 0} → Settings → (ResolveRequest → Exec S ResolveResult) → Server S
unfolding new_handler
new_server s res = record {
  handler =
      new_handler res
        (record { max_body_bytes = s.max_body_bytes; auth_token = s.auth_token; debug = s.debug });
  read_header = read_header_timeout;
  read = read_timeout;
  write = write_timeout;
  idle = idle_timeout;
}
