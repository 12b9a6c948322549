-- ===== src/Contract.antt =====
-- internal/contract/client.go: contracts, their policies and the catalog's data resources.
pub mod Encoding
pub mod Client
use consent_owner_resolver.Prelude.{Bool, List, Bytes, str}
use consent_owner_resolver.Go.Fold.{equal_fold}

abbrev pub status_signed : Bytes
status_signed = str "signed"

pub record Rule : Type 0 where
  pub target : Bytes
  pub asset_target : Bytes
  pub action : Bytes

pub record Policy : Type 0 where
  pub uid : Bytes
  pub permission : List Rule
  pub prohibition : List Rule

pub record Contract : Type 0 where
  pub id : Bytes
  pub status : Bytes
  pub data_provider : Bytes
  pub data_consumer : Bytes
  pub service_offering : Bytes
  pub policy : List Policy

unfoldable pub is_signed : Contract → Bool
is_signed c = equal_fold c.status status_signed

pub record VerifyResponse : Type 0 where
  pub verified : Bool
  pub contracts : List Contract

pub record ServiceOffering : Type 0 where
  pub data_resources : List Bytes

pub record DataResource : Type 0 where
  pub id : Bytes
  pub name : Bytes
  pub contains_pii : Bool
