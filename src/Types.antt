-- ===== src/Types.antt =====
-- internal/resolver/types.go: the request, the claims and the result.
use consent_owner_resolver.Prelude.{Bool, List, Option, Bytes, str}

-- A Go slice: `none` is nil, which differs from the empty slice once it is serialised.
abbrev pub Slice : Type 0 → Type 0
Slice A = Option (List A)

abbrev pub selector_whole : Bytes
selector_whole = str "whole"

abbrev pub selector_json_pointer : Bytes
selector_json_pointer = str "json-pointer"

abbrev pub scheme_identifier : Bytes
scheme_identifier = str "identifier"

abbrev pub scheme_email : Bytes
scheme_email = str "email"

abbrev pub scheme_did : Bytes
scheme_did = str "did"

abbrev pub encoding_none : Bytes
encoding_none = str "none"

abbrev pub encoding_json : Bytes
encoding_json = str "json"

abbrev pub encoding_base64 : Bytes
encoding_base64 = str "base64"

pub record Resource : Type 0 where
  pub service : Bytes
  pub method : Bytes
  pub path : Bytes
  pub content_type : Bytes

pub record Body : Type 0 where
  pub encoding : Bytes
  pub content : Bytes

pub record Parties : Type 0 where
  pub consumer : Bytes
  pub provider : Bytes

pub record ResolveRequest : Type 0 where
  pub resource : Resource
  pub parties : Option Parties
  pub body : Option Body

pub record Selector : Type 0 where
  pub type : Bytes
  pub value : Bytes

pub record Claim : Type 0 where
  pub selector : Selector
  pub owner_id : Bytes
  pub participant : Bytes
  pub data_resource : Bytes

pub record ResolveResult : Type 0 where
  pub consent_required : Bool
  pub scheme : Bytes
  pub claims : Slice Claim
