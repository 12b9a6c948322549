-- ===== src/Examples.antt =====
-- Data for the tests: a configuration with three rules, requests against it, and a payload.
mod Resolution
mod Facade
mod Payloads
mod Service
mod Serving
mod Threads
mod Concurrent
mod Scrapes
mod Process
mod Program
mod Matchers
use consent_owner_resolver.Prelude.{
  ℕ, suc, Bool, true, false, Option, none, some, List, [], ◌∷◌, ◌++◌, Bytes, str, ◌==◌, has_prefix,
  if◌then◌else◌, Result, ok,
}
use consent_owner_resolver.Prelude.Int.{ℤ, pos, negsuc}
use consent_owner_resolver.Json.{Json, null, string, array, object, nil, cons, end, member}
use consent_owner_resolver.Go.Library.{Library, Regexp, Attempt, done, failed}
use consent_owner_resolver.Types.{
  Claim, Parties, Body, ResolveRequest, ResolveResult, encoding_json, selector_whole,
  selector_json_pointer,
}
use consent_owner_resolver.RawConfig.{RawContractService, RawMatcher, RawRule, RawConfig}
use consent_owner_resolver.Contract.{Contract, DataResource, VerifyResponse, ServiceOffering}
use consent_owner_resolver.Contract.Client.{Network, Response}

abbrev pub document : Bytes → Bytes → Json
document id owner = object (member (str "id") (string id) (member (str "owner") (string owner) end))

abbrev pub two_documents : Json
two_documents = object (
    member (str "docs")
      (array (cons (document (str "d1") (str "ann")) (cons (document (str "d2") (str "bob")) nil)))
      end)

abbrev pub no_documents : Json
no_documents = object (member (str "docs") (array nil) end)

-- The path is a user's, and its one group is the name.
abbrev pub user_path : Regexp
user_path = record {
  subexp_names = [] ∷ str "owner" ∷ [];
  find_string_submatch = λ p. some (p ∷ str "eve" ∷ []);
  match_string = λ p. has_prefix p (str "/users/");
}

-- A library whose JSON texts are names of documents.
abbrev pub go : Library
go = record {
  quote = λ s. (b'"' ∷ s) ++ b'"' ∷ [];
  compile = λ p. done user_path;
  unmarshal = λ s.
      if s == str "two"
      then done two_documents
      else if s == str "empty"
      then done no_documents
      else failed (str "unexpected end of JSON input");
  unmarshal_string = λ s. done s;
  decode_string = λ s. done s;
}

abbrev pub no_matcher : RawMatcher
no_matcher = record {
  type = [];
  pattern = [];
  items = [];
  items_is_array = false;
  owner = [];
  resource_pointer = [];
  uri_pointer = [];
  resource = [];
  participant = [];
  scheme = [];
}

-- Users by the path, documents by the body, and a fixed owner for all else.
abbrev pub raw_config : RawConfig
raw_config = record {
  default_consent_required = true;
  default_scheme = [];
  contract_service = none;
  rules =
      record {
        name = str "users";
        match = record { service = []; path_pattern = str "^/users/" };
        consent_required = true;
        matcher = record no_matcher { type = str "path"; pattern = str "^/users/(?P<owner>.*)$" };
      }
      ∷ record {
        name = str "docs";
        match = record { service = str "docs"; path_pattern = [] };
        consent_required = true;
        matcher = record no_matcher {
          type = str "json";
          items = str "/docs";
          items_is_array = true;
          owner = str "/owner";
          scheme = str "email";
        };
      }
      ∷ record {
        name = [];
        match = record { service = []; path_pattern = [] };
        consent_required = false;
        matcher = record no_matcher { type = str "static"; owner = str "org" };
      }
      ∷ [];
}

abbrev pub ask : Bytes → Bytes → Option Body → ResolveRequest
ask service path body = record {
  resource = record {
    service = service;
    method = str "GET";
    path = path;
    content_type = str "application/json";
  };
  parties = none;
  body = body;
}

abbrev pub json_body : Bytes → Option Body
json_body content = some (record { encoding = encoding_json; content = content })

abbrev pub acme : Option Parties
acme = some (record { consumer = str "acme"; provider = [] })

abbrev pub claim_at : Bytes → Bytes → Claim
claim_at pointer owner = record {
  selector = record { type = selector_json_pointer; value = pointer };
  owner_id = owner;
  participant = [];
  data_resource = [];
}

abbrev pub two_claims : ResolveResult
two_claims = record {
  consent_required = true;
  scheme = str "email";
  claims = some (claim_at (str "/docs/0") (str "ann") ∷ claim_at (str "/docs/1") (str "bob") ∷ []);
}

abbrev pub no_claims : ResolveResult
no_claims = record { consent_required = true; scheme = str "email"; claims = some [] }

abbrev pub signed_contract : Contract
signed_contract = record {
  id = str "c1";
  status = str "Signed";
  data_provider = str "p";
  data_consumer = str "acme";
  service_offering = str "https://catalog.example/offerings/1?v=2";
  policy = [];
}

abbrev pub address : DataResource
address = record { id = str "r1"; name = str "address"; contains_pii = true }

-- A facade that answers every request, and a clock that counts the readings.
abbrev pub network : Network ℕ
network = record {
  request_error = λ url. none;
  get = λ timeout url w. (done (record { status_code = 200; body = str "b"; broken = none }), w);
  now = λ w. (w, suc w);
  verify_response = λ b. done (record {
    verified = true;
    contracts = signed_contract ∷ record signed_contract { status = str "draft" } ∷ [];
  });
  service_offering = λ b. done (record { data_resources = str "/resources/1" ∷ [] });
  data_resource = λ b. done address;
  parse_url = λ raw.
      if raw == str "resources/1"
      then done (record { path = str "resources/1"; raw_query = [] })
      else done (record { path = str "/resources/1"; raw_query = [] });
}
