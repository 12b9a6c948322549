-- ===== src/RawConfig.antt =====
-- internal/resolver/config.go: the configuration as it stands on disk.
use consent_owner_resolver.Prelude.{Bool, List, Option, Bytes}
use consent_owner_resolver.Prelude.Int.{ℤ}

pub record RawContractService : Type 0 where
  pub url : Bytes
  pub provider_self_description : Bytes
  pub timeout_ms : ℤ
  pub resource_cache_ttl_ms : ℤ

pub record RawMatch : Type 0 where
  pub service : Bytes
  pub path_pattern : Bytes

pub record RawMatcher : Type 0 where
  pub type : Bytes
  pub pattern : Bytes
  pub items : Bytes
  pub items_is_array : Bool
  pub owner : Bytes
  pub resource_pointer : Bytes
  pub uri_pointer : Bytes
  pub resource : Bytes
  pub participant : Bytes
  pub scheme : Bytes

pub record RawRule : Type 0 where
  pub name : Bytes
  pub match : RawMatch
  pub consent_required : Bool
  pub matcher : RawMatcher

pub record RawConfig : Type 0 where
  pub default_consent_required : Bool
  pub default_scheme : Bytes
  pub contract_service : Option RawContractService
  pub rules : List RawRule
