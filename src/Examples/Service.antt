-- ===== src/Examples/Service.antt =====
-- The route /resolve behind a shared secret, the failure counters and the error classes.
use consent_owner_resolver.Prelude.{
  ℕ, true, false, none, some, [], ◌∷◌, ◌≡◌, refl, Bytes, str, ◌==◌, has_prefix, Error, ok, arith,
}
use consent_owner_resolver.Prelude.Dict.{get, put}
use consent_owner_resolver.Prelude.Int.{ℤ, pos}
use consent_owner_resolver.Payload
use consent_owner_resolver.Payload.{decode_json_body, new_lazy_payload}
use consent_owner_resolver.Matcher.{claims, json}
use consent_owner_resolver.Matcher.JsonMatcher.{json_claims}
use consent_owner_resolver.Rules.{ConfigResolver, matches}
use consent_owner_resolver.Resolve.{resolve, resolve_from, apply_rule}
use consent_owner_resolver.Api.Logging.{error_class, redact_path}
use consent_owner_resolver.Api.Logging.Classes.{IsListed}
use consent_owner_resolver.Api.Logging.Closed.{resolve-IsListed}
use consent_owner_resolver.Api.Metrics.{new_metrics, observe_failure}
use consent_owner_resolver.Api.RequestId.{is_usable_request_id, encode_to_string, request_id}
use consent_owner_resolver.Api.RequestId.Laws.{IsLoggable, request_id-IsLoggable}
use consent_owner_resolver.Api.Handler.{
  HttpRequest, Decoding, decoded, result, Reply, Handler, Shared, authorized, drop, handle_resolve,
}
use consent_owner_resolver.Examples.{go, ask, json_body, two_claims}

serves : Unit {0}
unfolding is_usable_request_id encode_to_string str ◌==◌ has_prefix drop authorized handle_resolve
    redact_path error_class observe_failure get put resolve resolve_from apply_rule matches claims
    json_claims Payload.json decode_json_body new_lazy_payload
serves = tt

abbrev handler : Handler ℕ
handler = record {
  resolver = λ req s. (ok two_claims, s);
  max_body_bytes = pos 100;
  auth_token = str "secret";
  debug = false;
}

abbrev decode : ℤ → Bytes → Decoding
decode limit body = decoded (ask (str "docs") (str "/docs") none)

abbrev post : Bytes → HttpRequest
post authorization = record {
  method = str "POST";
  authorization = authorization;
  path = str "/resolve";
  given_id = [];
  context = some (str "1");
  body = [];
}

abbrev idle : Shared ℕ ℕ
idle = record { facade = 0; metrics = new_metrics; log = [] }

abbrev reply : Reply
reply = record { status = 200; challenge = none; payload = result two_claims }

served :
    (handle_resolve go.quote (λ s. s) handler decode (post (str "Bearer secret")) idle).0 ≡ ok reply
unfolding serves
served = refl

abbrev rules : ConfigResolver ℕ
rules = record {
  default_consent_required = true;
  default_scheme = str "identifier";
  rules =
      record {
        name = str "all";
        service = [];
        path_re = none;
        consent_required = true;
        scheme = str "identifier";
        matcher = json (record {
          items = [];
          items_is_array = false;
          owner_ptr = str "/owner";
          resource_ptr = [];
          resource = [];
          participant = [];
        });
      }
      ∷ [];
}

abbrev undecodable : Error
undecodable = record {
  message = str "decode json body: unexpected end of JSON input";
  bad_request = true;
}

resolve-IsListed_example : IsListed undecodable
unfolding serves
resolve-IsListed_example =
    resolve-IsListed go rules (ask (str "docs") (str "/docs") (json_body (str "{"))) 0 undecodable
      refl

-- The bytes 0, 1, ... 7, and the line that a caller would like to forge.
abbrev random_bytes : Bytes
random_bytes = 0 ∷ 1 ∷ 2 ∷ 3 ∷ 4 ∷ 5 ∷ 6 ∷ 255 ∷ []

random_id : request_id (some random_bytes) (10 ∷ str "forged line") ≡ str "00010203040506ff"
unfolding serves request_id
random_id = refl

request_id-IsLoggable_example : IsLoggable (request_id (some random_bytes) (10 ∷ str "forged line"))
request_id-IsLoggable_example =
    request_id-IsLoggable (some random_bytes) (10 ∷ str "forged line") (refl, ground arith)
