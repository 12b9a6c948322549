-- ===== src/Payload.antt =====
-- internal/resolver/jsonpointer.go: the request body, decoded on first use.
pub mod Laws
use consent_owner_resolver.Prelude.{
  Bool, true, false, Option, none, some, [], ◌++◌, Bytes, str, ◌==◌, if◌then◌else◌, Error, Result,
  ok, err, panicked,
}
use consent_owner_resolver.Prelude.Exec.{Exec}
use consent_owner_resolver.Json.{Json, null}
use consent_owner_resolver.Go.Library.{Library, Attempt, done, failed}
use consent_owner_resolver.Types.{Body, encoding_none, encoding_json, encoding_base64}

-- `badRequestf`, on a message that is formatted.
abbrev pub bad_requestf : Bytes → Error
bad_requestf message = record { message = message; bad_request = true }

abbrev pub class_json : Bytes
class_json = str "decode json body"

abbrev pub class_base64_string : Bytes
class_base64_string = str "base64 body must be a JSON string"

abbrev pub class_base64 : Bytes
class_base64 = str "decode base64 body"

abbrev pub class_body : Bytes
class_body = str "decode body"

module _ (lib : Library) where
  unfoldable pub or_bad_request : Bytes → Attempt Json → Result Json
  or_bad_request class (done v) = ok v
  or_bad_request class (failed why) = err (bad_requestf (class ++ str ": " ++ why))

  -- Bytes that are no JSON are opaque, and no error.
  unfoldable pub or_opaque : Attempt Json → Result Json
  or_opaque (done v) = ok v
  or_opaque (failed why) = ok null

  unfoldable pub decoded_base64 : Attempt Bytes → Result Json
  unfolding or_opaque
  decoded_base64 (done raw) = or_opaque (lib.unmarshal raw)
  decoded_base64 (failed why) = err (bad_requestf (class_base64 ++ str ": " ++ why))

  unfoldable pub decoded_string : Attempt Bytes → Result Json
  unfolding decoded_base64
  decoded_string (done s) = decoded_base64 (lib.decode_string s)
  decoded_string (failed why) = err (bad_requestf (class_base64_string ++ str ": " ++ why))

  unfoldable pub decode_json_body : Option Body → Result Json
  unfolding or_bad_request decoded_string
  decode_json_body none = ok null
  decode_json_body (some b) =
      if b.encoding == []
      then ok null
      else if b.encoding == encoding_none
      then ok null
      else if b.encoding == encoding_json
      then (if b.content == []
          then ok null
          else or_bad_request class_json (lib.unmarshal b.content))
      else if b.encoding == encoding_base64
      then decoded_string (lib.unmarshal_string b.content)
      else err (bad_requestf (class_body ++ str ": unknown encoding " ++ lib.quote b.encoding))

-- `lazyPayload`: `decoded` and `failure` are its fields `decoded` and `err`.
pub record LazyPayload : Type 0 where
  pub body : Option Body
  pub decoded : Json
  pub failure : Option Error
  pub is_done : Bool

unfoldable pub new_lazy_payload : Option Body → LazyPayload
new_lazy_payload b = record { body = b; decoded = null; failure = none; is_done = false }

-- The two results of a decoding are stored and returned.
unfoldable pub store : LazyPayload → Result Json → Result Json × LazyPayload
store p (ok v) = (ok v, record p { decoded = v; failure = none; is_done = true })
store p (err e) = (err e, record p { decoded = null; failure = some e; is_done = true })
store p panicked = (panicked, p)

unfoldable pub stored : LazyPayload → Result Json
stored p = elim p.failure [ none ↦ ok p.decoded | some e ↦ err e ]

-- `JSON`.
unfoldable pub json : Library → Exec LazyPayload Json
unfolding store stored
json lib p = if p.is_done then (stored p, p) else store p (decode_json_body lib p.body)
