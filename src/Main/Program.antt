-- ===== src/Main/Program.antt =====
-- main.go: `main` as a whole, from the environment of the process to its exit.
pub mod Clean
use consent_owner_resolver.Prelude.{ℕ, Bool, Option, none, some, ◌≡◌, Bytes}
use consent_owner_resolver.Go.Library.{Library, Attempt}
use consent_owner_resolver.RawConfig.{RawConfig}
use consent_owner_resolver.Contract.Client.{Network}
use consent_owner_resolver.Cache.{Facade}
use consent_owner_resolver.Config.{load}
use consent_owner_resolver.Main.{Settings, settings_from_env}
use consent_owner_resolver.Main.Run.{returned, Process, run, Steps, exit, listen_failure}

-- The outside of the process: its environment, its files and the decoder of its configuration, the
-- listening on an address, with the error that it gives, and the network of the resolver.
pub record Outside (W : Type 0) : Type 0 where
  pub env : Bytes → Bytes
  pub read_file : Bytes → Attempt Bytes
  pub decode : Bytes → Attempt RawConfig
  pub listen : Bytes → Option Bytes
  pub network : Network W

module _ (lib : Library) {W : Type 0} (o : Outside W) where
  unfoldable pub settings : Settings
  unfolding settings_from_env
  settings = (settings_from_env o.env lib.quote).0

  -- `run`, at its start; the signal may have come before.
  unfoldable pub begun : Bool → Process (Facade W)
  unfolding settings run load
  begun cancelled =
      run lib settings cancelled (load lib o.network o.read_file o.decode settings.config_path)

  -- How `main` ends: whether the signal has been given when it does, with the last line that it logs
  -- and its exit code.
  pub data Exits (told : Bool) (end : Bytes × ℕ) : Type 0 where
    at_listen :
        (e : Bytes)
        → o.listen settings.listen_addr ≡ some e
        → end ≡ listen_failure settings e
        → Exits told end
    at_return :
        (cancelled : Bool) (n : ℕ) (p : Process (Facade W)) (e : Option Bytes)
        → o.listen settings.listen_addr ≡ none
        → Steps (begun cancelled) n p
        → p.phase ≡ returned e
        → told ≡ p.cancelled
        → end ≡ exit e
        → Exits told end
