-- ===== src/Settled/Leaves.antt =====
-- Panics of the path matcher, of the parts of the json matcher (internal/resolver/matcher.go), and of
-- the decoding of a body (internal/resolver/jsonpointer.go).
use consent_owner_resolver.Prelude.{
  ℕ, ◌<◌, ◌≡◌, refl, Option, none, some, List, [], arith, Bytes, str, ◌==◌, length, get_elem?_total,
  Error,
}
use consent_owner_resolver.Json.{Json}
use consent_owner_resolver.Go.Library.{Library, Regexp, Attempt, done, failed}
use consent_owner_resolver.Types.{Body, ResolveRequest}
use consent_owner_resolver.Pointer.{pointer_string}
use consent_owner_resolver.Payload.{
  decode_json_body, decoded_string, decoded_base64, or_bad_request, or_opaque,
}
use consent_owner_resolver.Matcher.{Matcher, path, json, static, contract}
use consent_owner_resolver.Matcher.PathMatcher.{
  PathMatcher, index, resource_of, owned, extracted, path_claims,
}
use consent_owner_resolver.Matcher.JsonMatcher.{
  JsonMatcher, required, item_resource, json_claim_for_item,
}
use consent_owner_resolver.Settled.{Settles, if-Settles, bind-Settles}
use consent_owner_resolver.Settled.Client.{IsSettling}

-- What `FindStringSubmatch` gives has an entry for each name of `SubexpNames`.
abbrev pub IsRegexp : Regexp → Type 0
IsRegexp re =
    (s : Bytes) (sub : List Bytes)
    → re.find_string_submatch s ≡ some sub
    → length sub ≡ length re.subexp_names

-- The groups that the matcher reads are groups of its pattern.
pub record IsCovered (m : PathMatcher) : Type 0 where
  pub regexp : IsRegexp m.re
  pub owner : m.owner_group < length m.re.subexp_names
  pub resource : (g : ℕ) → m.res_group ≡ some g → g < length m.re.subexp_names

abbrev pub IsReady : {S : Type 0} → Matcher S → Type 0
IsReady (path m) = IsCovered m
IsReady (json m) = Unit
IsReady (static m) = Unit
IsReady (contract m) = IsSettling m.client

index-Settles : (sub : List Bytes) (i : ℕ) → i < length sub → Settles (index sub i)
unfolding index
index-Settles sub i h = let (s, found) = get_elem?_total sub i h in rw (index, found) tt

module _ (lib : Library) where
  resource_of-Settles :
      (m : PathMatcher) (sub : List Bytes) (o : Option ℕ)
      → ((g : ℕ) → o ≡ some g → g < length sub)
      → Settles (resource_of m sub o)
  unfolding resource_of
  resource_of-Settles m sub none h = tt
  resource_of-Settles m sub (some g) h =
      bind-Settles (index sub g) _ (index-Settles sub g (h g refl)) (λ r. tt)

  extracted-Settles :
      (m : PathMatcher) (p : Bytes) (o : Option (List Bytes))
      → IsCovered m
      → m.re.find_string_submatch p ≡ o
      → Settles (extracted lib m p o)
  unfolding extracted owned
  extracted-Settles m p none h e = tt
  extracted-Settles m p (some sub) h e =
      let groups = h.regexp p sub e in
      bind-Settles (index sub m.owner_group) _
        (index-Settles sub m.owner_group (omega (arith, groups, h.owner)))
        (λ owner. if-Settles (owner == []) _ _ tt (
          bind-Settles (resource_of m sub m.res_group) _
            (resource_of-Settles m sub m.res_group
              (λ g given. omega (arith, groups, h.resource g given)))
            (λ r. tt)))

  pub path_claims-Settles :
      (m : PathMatcher) (req : ResolveRequest) → IsCovered m → Settles (path_claims lib m req)
  unfolding path_claims
  path_claims-Settles m req h =
      extracted-Settles m req.resource.path (m.re.find_string_submatch req.resource.path) h refl

  or_opaque-Settles : (a : Attempt Json) → Settles (or_opaque lib a)
  unfolding or_opaque
  or_opaque-Settles (done v) = tt
  or_opaque-Settles (failed why) = tt

  or_bad_request-Settles : (class : Bytes) (a : Attempt Json) → Settles (or_bad_request lib class a)
  unfolding or_bad_request
  or_bad_request-Settles class (done v) = tt
  or_bad_request-Settles class (failed why) = tt

  decoded_base64-Settles : (a : Attempt Bytes) → Settles (decoded_base64 lib a)
  unfolding decoded_base64
  decoded_base64-Settles (done raw) = or_opaque-Settles (lib.unmarshal raw)
  decoded_base64-Settles (failed why) = tt

  decoded_string-Settles : (a : Attempt Bytes) → Settles (decoded_string lib a)
  unfolding decoded_string
  decoded_string-Settles (done s) = decoded_base64-Settles (lib.decode_string s)
  decoded_string-Settles (failed why) = tt

  pub decode_json_body-Settles : (b : Option Body) → Settles (decode_json_body lib b)
  unfolding decode_json_body
  decode_json_body-Settles none = tt
  decode_json_body-Settles (some b) = if-Settles (b.encoding == []) _ _ tt (
      if-Settles (b.encoding == str "none") _ _ tt (
        if-Settles (b.encoding == str "json") _ _
          (if-Settles (b.content == []) _ _ tt
            (or_bad_request-Settles (str "decode json body") (lib.unmarshal b.content)))
          (if-Settles (b.encoding == str "base64") _ _
            (decoded_string-Settles (lib.unmarshal_string b.content)) tt)))

  pub required-Settles : (e : Error) (o : Option Bytes) → Settles (required e o)
  unfolding required
  required-Settles e none = tt
  required-Settles e (some s) = if-Settles (s == []) _ _ tt tt

  item_resource-Settles : (m : JsonMatcher) (item : Json) → Settles (item_resource lib m item)
  unfolding item_resource
  item_resource-Settles m item = if-Settles (m.resource_ptr == []) _ _ tt (required-Settles _ _)

  pub json_claim_for_item-Settles :
      (m : JsonMatcher) (item : Json) (selector : Bytes)
      → Settles (json_claim_for_item lib m item selector)
  unfolding json_claim_for_item
  json_claim_for_item-Settles m item selector =
      bind-Settles (required _ (pointer_string item m.owner_ptr)) _ (required-Settles _ _) (λ owner.
        bind-Settles (item_resource lib m item) _ (item_resource-Settles m item) (λ r. tt))
