-- ===== src/Api/Handler.antt =====
-- internal/api/handler.go: the route /resolve. The decoding of a request body within its limit and
-- the digest of a path are parameters, and the resolver is any implementation of its interface.
pub mod Laws
use consent_owner_resolver.Prelude.{
  ℕ, zero, suc, Bool, true, false, not, Option, none, some, List, [], ◌∷◌, ◌++◌, Bytes, str, ◌==◌,
  has_prefix, length, if◌then◌else◌, Error, Result, ok, err, panicked,
}
use consent_owner_resolver.Prelude.Exec.{Exec}
use consent_owner_resolver.Prelude.Int.{ℤ, pos, is_positive}
use consent_owner_resolver.Types.{ResolveRequest, ResolveResult}
use consent_owner_resolver.Api.Logging.{redact_path, error_class}
use consent_owner_resolver.Api.Metrics.{Metrics, observe_failure}
use consent_owner_resolver.Api.RequestId.{Context, request_id_from}

-- 5 << 20
abbrev pub default_max_body_bytes : ℤ
default_max_body_bytes = pos 5242880

abbrev pub bearer_prefix : Bytes
bearer_prefix = str "Bearer "

pub record Options : Type 0 where
  pub max_body_bytes : ℤ
  pub auth_token : Bytes
  pub debug : Bool

-- A request, as far as the handler reads it: its headers are `Authorization` and `X-Request-Id`.
pub record HttpRequest : Type 0 where
  pub method : Bytes
  pub path : Bytes
  pub authorization : Bytes
  pub given_id : Bytes
  pub context : Context
  pub body : Bytes

-- What the decoder makes of a body.
pub data Decoding : Type 0 where
  decoded : ResolveRequest → Decoding
  too_large : Decoding
  invalid : Bytes → Decoding

-- The values that are written as JSON; `health` is the map of the one key `status`.
pub data Payload : Type 0 where
  error : Bytes → Payload
  health : Bytes → Payload
  result : ResolveResult → Payload

pub record Reply : Type 0 where
  pub status : ℕ
  pub challenge : Option Bytes
  pub payload : Payload

pub record Handler (S : Type 0) : Type 0 where
  pub resolver : ResolveRequest → Exec S ResolveResult
  pub max_body_bytes : ℤ
  pub auth_token : Bytes
  pub debug : Bool

-- The state that requests share: that of the resolver, the metrics, and the log, of which the last
-- line comes first.
pub record Shared (S Fl : Type 0) : Type 0 where
  pub facade : S
  pub metrics : Metrics Fl
  pub log : List Bytes

unfoldable pub new_handler :
    {S : Type 0} → (ResolveRequest → Exec S ResolveResult) → Options → Handler S
new_handler r opts = record {
  resolver = r;
  max_body_bytes =
      if is_positive opts.max_body_bytes then opts.max_body_bytes else default_max_body_bytes;
  auth_token = opts.auth_token;
  debug = opts.debug;
}

-- `strings.TrimPrefix`, for a text that has the prefix.
unfoldable pub drop : ℕ → Bytes → Bytes
drop zero s = s
drop (suc n) [] = []
drop (suc n) (b ∷ s) = drop n s

-- `ConstantTimeCompare` is an equality of bytes.
unfoldable pub authorized : Bytes → Bytes → Bool
unfolding drop has_prefix
authorized auth_token header =
    if auth_token == []
    then true
    else if not (has_prefix header bearer_prefix)
    then false
    else drop (length bearer_prefix) header == auth_token

unfoldable pub write_error : ℕ → Bytes → Reply
write_error status msg = record { status = status; challenge = none; payload = error msg }

module _ (quote digest : Bytes → Bytes) where
  unfoldable pub failure_line : Bool → Bytes → ResolveRequest → Error → Bytes
  failure_line debug id req e =
      let start =
        str "[owner-resolver] resolve failed: requestId="
        ++ quote id
        ++ str " service="
        ++ quote req.resource.service
        ++ str " method="
        ++ quote req.resource.method
        ++ str " path=" in
      if debug
      then start ++ quote req.resource.path ++ str ": " ++ e.message
      else start ++ redact_path digest req.resource.path ++ str ": " ++ error_class (some e)

  module _ {S Fl : Type 0} (h : Handler S) where
    -- The failure is counted and logged.
    unfoldable pub failed :
        HttpRequest → ResolveRequest → Error → Metrics Fl → List Bytes → S → Shared S Fl
    unfolding failure_line request_id_from
    failed q req e m log s = record {
      facade = s;
      metrics = record m { failures = observe_failure (error_class (some e)) m.failures };
      log = failure_line h.debug (request_id_from q.context) req e ∷ log;
    }

    -- Behind the call of `Resolve`.
    unfoldable pub replied :
        HttpRequest
        → ResolveRequest
        → Metrics Fl
        → List Bytes
        → Result ResolveResult × S
        → Result Reply × Shared S Fl
    unfolding failed write_error
    replied q req m log (ok out, s) = (
      ok (record { status = 200; challenge = none; payload = result out }),
      record { facade = s; metrics = m; log = log },
    )
    replied q req m log (err e, s) = (
      ok (
          if e.bad_request
          then write_error 400 (str "invalid request body")
          else write_error 422 (str "cannot resolve owner")),
      failed q req e m log s,
    )
    replied q req m log (panicked, s) = (panicked, record { facade = s; metrics = m; log = log })

    unfoldable pub on_decoded : HttpRequest → Decoding → Exec (Shared S Fl) Reply
    unfolding replied write_error
    on_decoded q (decoded req) s = replied q req s.metrics s.log (h.resolver req s.facade)
    on_decoded q too_large s = (ok (write_error 413 (str "request body too large")), s)
    on_decoded q (invalid why) s = (ok (write_error 400 (str "invalid request body: " ++ why)), s)

    -- `resolve`, of the handler.
    unfoldable pub handle_resolve : (ℤ → Bytes → Decoding) → HttpRequest → Exec (Shared S Fl) Reply
    unfolding on_decoded authorized write_error
    handle_resolve decode q s =
        if not (q.method == str "POST")
        then (ok (write_error 405 (str "only POST is allowed")), s)
        else if not (authorized h.auth_token q.authorization)
        then (
          ok (record (write_error 401 (str "unauthorized")) { challenge = some (str "Bearer") }),
          s,
        )
        else on_decoded q (decode h.max_body_bytes q.body) s
