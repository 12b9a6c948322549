-- ===== src/Api/RequestId.antt =====
-- internal/api/requestid.go: the correlation id of a request, and the context that carries it. The
-- random bytes are a parameter, `none` where the source of randomness fails. The bytes of a rune above
-- 0x7f are all above 0x7f, so that the test of the runes is a test of the bytes.
pub mod Laws
use consent_owner_resolver.Prelude.{
  ℕ, ◌+◌, ◌-◌, ◌/◌, ◌%◌, Bool, true, false, ◌||◌, Option, none, some, [], ◌∷◌, Bytes, str, ◌==◌,
  ltb, eqb, length, if◌then◌else◌,
}

-- The value that a context has under the private key of the package, if it has one.
abbrev pub Context : Type 0
Context = Option Bytes

unfoldable pub with_request_id : Context → Bytes → Context
with_request_id ctx id = some id

-- The empty text where there is none.
unfoldable pub request_id_from : Context → Bytes
request_id_from none = []
request_id_from (some id) = id

abbrev pub request_id_bytes : ℕ
request_id_bytes = 8

abbrev pub max_request_id_length : ℕ
max_request_id_length = 64

-- `strings.IndexFunc(id, ...) < 0`
unfoldable pub is_printable : Bytes → Bool
is_printable [] = true
is_printable (b ∷ id) = if ltb b b' ' || eqb b 0x7f then false else is_printable id

unfoldable pub is_usable_request_id : Bytes → Bool
unfolding is_printable
is_usable_request_id id =
    if id == []
    then false
    else if ltb max_request_id_length (length id)
    then false
    else is_printable id

-- A digit of `encoding/hex`.
unfoldable pub hex_digit : ℕ → ℕ
hex_digit n = if ltb n 10 then b'0' + n else b'a' + (n - 10)

-- `hex.EncodeToString`
unfoldable pub encode_to_string : Bytes → Bytes
unfolding hex_digit
encode_to_string [] = []
encode_to_string (b ∷ buf) = hex_digit (b / 16) ∷ hex_digit (b % 16) ∷ encode_to_string buf

unfoldable pub generated : Option Bytes → Bytes
unfolding encode_to_string
generated none = str "unavailable"
generated (some buf) = encode_to_string buf

unfoldable pub request_id : Option Bytes → Bytes → Bytes
unfolding is_usable_request_id generated
request_id random given = if is_usable_request_id given then given else generated random
