-- ===== src/Api/RequestId/Laws.antt =====
-- Laws of requestID in internal/api/requestid.go.
use consent_owner_resolver.Prelude.{
  ℕ, ◌*◌, ◌/◌, ◌%◌, ◌<◌, none, some, refl, ap, str, ◌==◌, ◌≤◌, ◌≡◌, ◌≢◌, true, Option, [], ◌∷◌,
  arith, Bytes, eq_iff, length, All, Bool-cases, inl, inr,
}
use consent_owner_resolver.Api.RequestId.{
  max_request_id_length, is_printable, is_usable_request_id, hex_digit, encode_to_string,
  request_id_bytes, generated, request_id,
}

-- An id that a log line can hold: not empty, of bounded length, and without control characters.
pub record IsLoggable (id : Bytes) : Type 0 where
  pub present : id ≢ []
  pub bounded : length id ≤ max_request_id_length
  pub printable : All (λ b. (32 ≤ b) × (b ≢ 127)) id

is_printable-All : (id : Bytes) → is_printable id ≡ true → All (λ b. (32 ≤ b) × (b ≢ 127)) id
unfolding is_printable
is_printable-All [] h = tt
is_printable-All (b ∷ id) h = ground (arith, is_printable-All id)

pub is_usable_request_id-IsLoggable : (id : Bytes) → is_usable_request_id id ≡ true → IsLoggable id
unfolding is_usable_request_id
is_usable_request_id-IsLoggable id h = record {
  present = ground (arith, eq_iff id []);
  bounded = ground arith;
  printable = is_printable-All id (ground arith);
}

hex_digit-printable : (n : ℕ) → n < 16 → (32 ≤ hex_digit n) × (hex_digit n ≢ 127)
unfolding hex_digit
hex_digit-printable n h = ground arith

encode_to_string-printable :
    (buf : Bytes) → All (λ b. b < 256) buf → All (λ b. (32 ≤ b) × (b ≢ 127)) (encode_to_string buf)
unfolding encode_to_string
encode_to_string-printable [] h = tt
encode_to_string-printable (b ∷ buf) h = (
  hex_digit-printable (b / 16) (omega (arith, h.0)),
  (hex_digit-printable (b % 16) (omega arith), encode_to_string-printable buf h.1),
)

length-encode_to_string : (buf : Bytes) → length (encode_to_string buf) ≡ 2 * length buf
unfolding encode_to_string
length-encode_to_string [] = refl
length-encode_to_string (b ∷ buf) = omega (arith, length-encode_to_string buf)

-- What the source of randomness fills the buffer with.
abbrev pub IsFilled : Option Bytes → Type 0
IsFilled none = Unit
IsFilled (some buf) = (length buf ≡ request_id_bytes) × All (λ b. b < 256) buf

unavailable_is_usable : is_usable_request_id (str "unavailable") ≡ true
unfolding is_usable_request_id str ◌==◌
unavailable_is_usable = refl

generated-IsLoggable : (random : Option Bytes) → IsFilled random → IsLoggable (generated random)
unfolding generated
generated-IsLoggable none h =
    is_usable_request_id-IsLoggable (str "unavailable") unavailable_is_usable
generated-IsLoggable (some buf) (whole, bytes) = record {
  present = λ e. absurd (omega (arith, length-encode_to_string buf, whole, ap length e));
  bounded = omega (arith, length-encode_to_string buf, whole);
  printable = encode_to_string-printable buf bytes;
}

-- If the source of randomness fails, or fills the buffer with 8 bytes, then the id of a request can be
-- logged, whatever the caller sends.
pub request_id-IsLoggable :
    (random : Option Bytes) (given : Bytes) → IsFilled random → IsLoggable (request_id random given)
unfolding request_id
request_id-IsLoggable random given h = elim (Bool-cases (is_usable_request_id given)) [
  | inl usable ↦ rw usable (is_usable_request_id-IsLoggable given usable)
  | inr other ↦ rw other (generated-IsLoggable random h)
]
