-- ===== src/Lookup.antt =====
-- internal/resolver/contract_matcher.go: the interface `contractLookup`, as two actions on a state.
use consent_owner_resolver.Prelude.{Bytes}
use consent_owner_resolver.Prelude.Exec.{Exec}
use consent_owner_resolver.Types.{Slice}
use consent_owner_resolver.Contract.{Contract, DataResource}

pub record ContractLookup (S : Type 0) : Type 0 where
  pub signed_contracts : Bytes → Bytes → Exec S (Slice Contract)
  pub data_resources : Contract → Exec S (Slice DataResource)
