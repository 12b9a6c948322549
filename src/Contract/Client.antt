-- ===== src/Contract/Client.antt =====
-- internal/contract/client.go: the client of the consent-facade. The network, the decoding of
-- response documents and `url.Parse` are parameters; `W` is the state of the outside world.
pub mod Laws
pub mod Timeouts
pub mod Requests
pub mod Hosts
pub mod Contracts
use consent_owner_resolver.Prelude.{
  ℕ, ◌+◌, Option, none, some, List, [], ◌∷◌, ◌++◌, Bytes, str, ◌==◌, ltb, leb, eqb, length,
  if◌then◌else◌, Error, error, Result, ok, err,
}
use consent_owner_resolver.Prelude.Exec.{Exec, lift, ◌>>=◌}
use consent_owner_resolver.Prelude.Int.{ℤ, pos, is_positive, milliseconds}
use consent_owner_resolver.Go.Library.{Attempt, done, failed}
use consent_owner_resolver.Go.Strconv.{itoa}
use consent_owner_resolver.Go.Strings.{trim_right, take}
use consent_owner_resolver.Types.{Slice}
use consent_owner_resolver.Contract.{
  Contract, VerifyResponse, ServiceOffering, DataResource, is_signed,
}
use consent_owner_resolver.Contract.Encoding.{encode_participant}

abbrev pub default_timeout_ms : ℤ
default_timeout_ms = pos 3000

-- 4 << 20
abbrev pub max_response_bytes : ℕ
max_response_bytes = 4194304

-- A parsed url, as far as it is read.
pub record Url : Type 0 where
  pub path : Bytes
  pub raw_query : Bytes

-- A response: the bytes that its body yields, and the error behind them, if they do not end it.
pub record Response : Type 0 where
  pub status_code : ℕ
  pub body : Bytes
  pub broken : Option Bytes

pub record Network (W : Type 0) : Type 0 where
  -- the error of `http.NewRequestWithContext`, if it gives one
  pub request_error : Bytes → Option Bytes
  -- `httpClient.Do`, for a GET within a timeout in nanoseconds
  pub get : ℤ → Bytes → W → Attempt Response × W
  -- `time.Now`, in nanoseconds
  pub now : W → ℕ × W
  -- `json.Unmarshal` into the three documents
  pub verify_response : Bytes → Attempt VerifyResponse
  pub service_offering : Bytes → Attempt ServiceOffering
  pub data_resource : Bytes → Attempt DataResource
  -- `url.Parse`
  pub parse_url : Bytes → Attempt Url

pub record Client : Type 0 where
  pub base_url : Bytes
  pub timeout : ℤ

unfoldable pub new_client : Bytes → ℤ → Client
new_client base_url timeout_ms =
    let ms : ℤ = if is_positive timeout_ms then timeout_ms else default_timeout_ms in
    record { base_url = trim_right base_url b'/'; timeout = milliseconds ms }

-- `io.ReadAll(io.LimitReader(resp.Body, n))`: an error behind the limit is not met.
unfoldable pub read_all : ℕ → Response → Attempt Bytes
read_all n resp =
    if leb n (length resp.body)
    then done (take n resp.body)
    else elim resp.broken [ none ↦ done resp.body | some why ↦ failed why ]

module _ (quote : Bytes → Bytes) {W : Type 0} (net : Network W) (c : Client) where
  unfoldable pub failure : Bytes → Bytes → Bytes → Error
  failure before endpoint after =
      error (str "contract client: " ++ before ++ quote endpoint ++ after)

  -- From the bytes that were read to the document.
  unfoldable pub decoded : {A : Type 0} → Bytes → (Bytes → Attempt A) → Attempt Bytes → Result A
  unfolding failure
  decoded endpoint unmarshal (failed why) =
      err (failure (str "read response from ") endpoint (str ": " ++ why))
  decoded endpoint unmarshal (done body) =
      if ltb max_response_bytes (length body)
      then err (
          failure (str "response from ") endpoint
            (str " exceeds the " ++ itoa max_response_bytes ++ str " byte limit"))
      else elim (unmarshal body) [
        | done v ↦ ok v
        | failed why ↦ err (failure (str "decode response from ") endpoint (str ": " ++ why))
      ]

  unfoldable pub answered : {A : Type 0} → Bytes → (Bytes → Attempt A) → Attempt Response → Result A
  unfolding decoded
  answered endpoint unmarshal (failed why) =
      err (failure (str "request ") endpoint (str " failed: " ++ why))
  answered endpoint unmarshal (done resp) =
      if eqb resp.status_code 200
      then decoded endpoint unmarshal (read_all (max_response_bytes + 1) resp)
      else err (failure [] endpoint (str " returned status " ++ itoa resp.status_code))

  unfoldable pub sent :
      {A : Type 0} → Bytes → (Bytes → Attempt A) → Attempt Response × W → Result A × W
  unfolding answered
  sent endpoint unmarshal (answer, w) = (answered endpoint unmarshal answer, w)

  unfoldable pub get_json : {A : Type 0} → Bytes → (Bytes → Attempt A) → Exec W A
  unfolding sent
  get_json endpoint unmarshal w = elim (net.request_error endpoint) [
    | some why ↦ (err (failure (str "create request for ") endpoint (str ": " ++ why)), w)
    | none ↦ sent endpoint unmarshal (net.get c.timeout endpoint w)
  ]

  unfoldable pub verify_url : Bytes → Bytes → Bytes
  verify_url provider_sd consumer_sd =
      c.base_url
      ++ str "/verify/"
      ++ encode_participant provider_sd
      ++ b'/' ∷ encode_participant consumer_sd

  unfoldable pub signed_only : List Contract → List Contract
  signed_only [] = []
  signed_only (x ∷ xs) = let rest = signed_only xs in if is_signed x then x ∷ rest else rest

  -- An unverified pair has no contracts, and that is no error.
  unfoldable pub signed_contracts : Bytes → Bytes → Exec W (Slice Contract)
  unfolding get_json verify_url signed_only
  signed_contracts provider_sd consumer_sd = do
    out ← get_json (verify_url provider_sd consumer_sd) net.verify_response
    lift (ok (if out.verified then some (signed_only out.contracts) else none))

  unfoldable pub rebuilt : Bytes → Attempt Url → Result Bytes
  unfolding failure
  rebuilt raw_url (failed why) = err (failure [] raw_url (str " is not a usable url: " ++ why))
  rebuilt raw_url (done parsed) =
      if parsed.path == []
      then err (failure [] raw_url (str " has no path to localize"))
      else if parsed.path == str "/"
      then err (failure [] raw_url (str " has no path to localize"))
      else if parsed.raw_query == []
      then ok (c.base_url ++ parsed.path)
      else ok ((c.base_url ++ parsed.path) ++ b'?' ∷ parsed.raw_query)

  unfoldable pub localize : Bytes → Result Bytes
  unfolding rebuilt
  localize raw_url = rebuilt raw_url (net.parse_url raw_url)

  -- A document without an id of its own has that of the reference to it.
  unfoldable pub canonical : Bytes → DataResource → DataResource
  canonical ref dr = if dr.id == [] then record dr { id = ref } else dr

  unfoldable pub fetch_all : List Bytes → Exec W (List DataResource)
  unfolding get_json localize canonical
  fetch_all [] = lift (ok [])
  fetch_all (ref ∷ refs) = do
    resource_url ← lift (localize ref)
    dr ← get_json resource_url net.data_resource
    resources ← fetch_all refs
    lift (ok (canonical ref dr ∷ resources))

  unfoldable pub data_resources : Contract → Exec W (Slice DataResource)
  unfolding fetch_all
  data_resources contract = if contract.service_offering == [] then lift (ok none) else do
    offering_url ← lift (localize contract.service_offering)
    offering ← get_json offering_url net.service_offering
    resources ← fetch_all offering.data_resources
    lift (ok (some resources))
