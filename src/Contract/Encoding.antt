-- ===== src/Contract/Encoding.antt =====
-- internal/contract/client.go: participants in path parameters, in padded url-safe base64.
pub mod Laws
use consent_owner_resolver.Prelude.{
  ℕ, ◌+◌, ◌-◌, ◌*◌, ◌/◌, ◌%◌, [], ◌∷◌, Bytes, ltb, eqb, if◌then◌else◌,
}

-- The digit of a 6-bit value in the alphabet of `base64.URLEncoding`.
unfoldable pub digit : ℕ → ℕ
digit v =
    if ltb v 26
    then b'A' + v
    else if ltb v 52
    then b'a' + (v - 26)
    else if ltb v 62
    then b'0' + (v - 52)
    else if eqb v 62
    then b'-'
    else b'_'

-- `EncodeToString`: three bytes are four digits, and a shorter rest is padded.
unfoldable pub encode_participant : Bytes → Bytes
unfolding digit
encode_participant [] = []
encode_participant (a ∷ []) = digit (a / 4) ∷ digit (a % 4 * 16) ∷ b'=' ∷ b'=' ∷ []
encode_participant (a ∷ b ∷ []) =
    digit (a / 4) ∷ digit (a % 4 * 16 + b / 16) ∷ digit (b % 16 * 4) ∷ b'=' ∷ []
encode_participant (a ∷ b ∷ c ∷ s) =
    digit (a / 4)
    ∷ digit (a % 4 * 16 + b / 16)
    ∷ digit (b % 16 * 4 + c / 64)
    ∷ digit (c % 64)
    ∷ encode_participant s
