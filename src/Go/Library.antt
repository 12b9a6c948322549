-- ===== src/Go/Library.antt =====
-- What the program takes from Go's standard library as it is: regular expressions, decoding and
-- quoting. Each function is a parameter; a failure carries the message of its error.
use consent_owner_resolver.Prelude.{Bool, List, Option, Bytes}
use consent_owner_resolver.Json.{Json}

pub data Attempt {ℓ} (A : Type ℓ) : Type ℓ where
  done : A → Attempt A
  failed : Bytes → Attempt A

-- A compiled `*regexp.Regexp`: `SubexpNames`, `FindStringSubmatch` and `MatchString`.
pub record Regexp : Type 0 where
  pub subexp_names : List Bytes
  pub find_string_submatch : Bytes → Option (List Bytes)
  pub match_string : Bytes → Bool

pub record Library : Type 0 where
  -- the verb %q
  pub quote : Bytes → Bytes
  -- `regexp.Compile`
  pub compile : Bytes → Attempt Regexp
  -- `json.Unmarshal` into an `interface{}` and into a `string`
  pub unmarshal : Bytes → Attempt Json
  pub unmarshal_string : Bytes → Attempt Bytes
  -- `base64.StdEncoding.DecodeString`
  pub decode_string : Bytes → Attempt Bytes
