-- ===== src/Contract/Encoding/Laws.antt =====
-- Laws of encodeParticipant in internal/contract/client.go.
use consent_owner_resolver.Prelude.{
  ℕ, ◌+◌, ◌-◌, ◌*◌, ◌/◌, ◌%◌, ◌<◌, ◌≡◌, refl, sym, ap, ◌∙◌, Bool, true, false, [], ◌∷◌, ◌++◌, arith,
  Bytes, All, length, ltb, leb, eqb, if◌then◌else◌, ◌&&◌, ◌||◌,
}
use mathlib.Core.Path.{ap₂}
use consent_owner_resolver.Contract.Encoding.{digit, encode_participant}

abbrev pub IsByte : ℕ → Type 0
IsByte b = b < 256

-- A letter, a digit, `-` or `_`: the alphabet of base64url.
unfoldable pub is_path_safe : ℕ → Bool
is_path_safe b =
    (leb b'A' b && leb b b'Z')
    || (leb b'a' b && leb b b'z')
    || (leb b'0' b && leb b b'9')
    || eqb b b'-'
    || eqb b b'_'

abbrev IsSafe : ℕ → Type 0
IsSafe b = is_path_safe b ≡ true

digit-IsSafe : (v : ℕ) → v < 64 → IsSafe (digit v)
unfolding digit is_path_safe
digit-IsSafe v h = ground arith

-- Digits of base64url, with padding behind them that fills the last group of four.
pub record IsPadded (s encoded : Bytes) : Type 0 where
  pub digits : Bytes
  pub padding : Bytes
  pub split : encoded ≡ digits ++ padding
  pub safe : All (λ b. is_path_safe b ≡ true) digits
  pub pads : All (λ b. b ≡ b'=') padding
  pub fills : length padding ≡ (2 * length s) % 3
  pub whole : length encoded ≡ 4 * ((length s + 2) / 3)

-- The encoding of a list of numbers below 256 is digits of base64url, each a letter, a digit, `-` or
-- `_`, with `=` behind them: none, one or two, as the length of the list is 0, 2 or 1 modulo 3. It has
-- four bytes for every three of the list that are begun.
pub encode_participant-IsPadded : (s : Bytes) → All IsByte s → IsPadded s (encode_participant s)
unfolding encode_participant
encode_participant-IsPadded [] h = record {
  digits = [];
  padding = [];
  split = refl;
  safe = tt;
  pads = tt;
  fills = omega arith;
  whole = omega arith;
}
encode_participant-IsPadded (a ∷ []) h = record {
  digits = digit (a / 4) ∷ digit (a % 4 * 16) ∷ [];
  padding = b'=' ∷ b'=' ∷ [];
  split = refl;
  safe = (digit-IsSafe (a / 4) (omega arith), (digit-IsSafe (a % 4 * 16) (omega arith), tt));
  pads = (refl, (refl, tt));
  fills = omega arith;
  whole = omega arith;
}
encode_participant-IsPadded (a ∷ b ∷ []) h = record {
  digits = digit (a / 4) ∷ digit (a % 4 * 16 + b / 16) ∷ digit (b % 16 * 4) ∷ [];
  padding = b'=' ∷ [];
  split = refl;
  safe = (
    digit-IsSafe (a / 4) (omega arith),
    (
      digit-IsSafe (a % 4 * 16 + b / 16) (omega arith),
      (digit-IsSafe (b % 16 * 4) (omega arith), tt),
    ),
  );
  pads = (refl, tt);
  fills = omega arith;
  whole = omega arith;
}
encode_participant-IsPadded (a ∷ b ∷ c ∷ s) h =
    let rest = encode_participant-IsPadded s h.1.1.1 in
    let p = digit (a / 4) in
    let q = digit (a % 4 * 16 + b / 16) in
    let r = digit (b % 16 * 4 + c / 64) in
    let t = digit (c % 64) in
    record {
      digits = p ∷ q ∷ r ∷ t ∷ rest.digits;
      padding = rest.padding;
      split = ap (λ l. p ∷ q ∷ r ∷ t ∷ l) rest.split;
      safe = (
        digit-IsSafe (a / 4) (omega arith),
        (
          digit-IsSafe (a % 4 * 16 + b / 16) (omega arith),
          (
            digit-IsSafe (b % 16 * 4 + c / 64) (omega arith),
            (digit-IsSafe (c % 64) (omega arith), rest.safe),
          ),
        ),
      );
      pads = rest.pads;
      fills = omega (arith, rest.fills);
      whole = omega (arith, rest.whole);
    }

-- The 6-bit value of a digit of the alphabet.
value : ℕ → ℕ
value b =
    if eqb b b'-'
    then 62
    else if eqb b b'_'
    then 63
    else if ltb b b'A'
    then b - b'0' + 52
    else if ltb b b'a'
    then b - b'A'
    else b - b'a' + 26

value-digit : (v : ℕ) → v < 64 → value (digit v) ≡ v
unfolding value digit
value-digit v h = ground arith

digit-ne-pad : (v : ℕ) → v < 64 → eqb (digit v) b'=' ≡ false
unfolding digit
digit-ne-pad v h = ground arith

-- A decoder: four digits are three bytes, and padding cuts the last group short.
decode : Bytes → Bytes
unfolding value
decode (p ∷ q ∷ r ∷ t ∷ s) =
    let rest = decode s in
    let first = value p * 4 + value q / 16 in
    let second = value q % 16 * 16 + value r / 4 in
    let third = value r % 4 * 64 + value t in
    if eqb r b'='
    then first ∷ []
    else if eqb t b'='
    then first ∷ second ∷ []
    else first ∷ second ∷ third ∷ rest
decode _ = []

quad :
    {a b c a' b' c' : ℕ} {s : Bytes}
    → a ≡ a'
    → b ≡ b'
    → c ≡ c'
    → ◌≡◌ {A = Bytes} (a ∷ b ∷ c ∷ s) (a' ∷ b' ∷ c' ∷ s)
quad e f g = cc

decode-encode_participant : (s : Bytes) → All IsByte s → decode (encode_participant s) ≡ s
unfolding decode encode_participant
decode-encode_participant [] h = refl
decode-encode_participant (a ∷ []) h =
    rw (value-digit (a / 4) (omega arith), value-digit (a % 4 * 16) (omega arith))
      (ap (λ x. x ∷ []) (omega arith))
decode-encode_participant (a ∷ b ∷ []) h =
    rw
      (
        digit-ne-pad (b % 16 * 4) (omega arith),
        value-digit (a / 4) (omega arith),
        value-digit (a % 4 * 16 + b / 16) (omega arith),
        value-digit (b % 16 * 4) (omega arith),
      )
      (ap₂ (λ x y. x ∷ y ∷ []) (omega arith) (omega arith))
decode-encode_participant (a ∷ b ∷ c ∷ s) h =
    rw
      (
        digit-ne-pad (b % 16 * 4 + c / 64) (omega arith),
        digit-ne-pad (c % 64) (omega arith),
        value-digit (a / 4) (omega arith),
        value-digit (a % 4 * 16 + b / 16) (omega arith),
        value-digit (b % 16 * 4 + c / 64) (omega arith),
        value-digit (c % 64) (omega arith),
        decode-encode_participant s h.1.1.1,
      )
      (quad (omega arith) (omega arith) (omega arith))

-- Different participants have different encodings.
pub encode_participant-injective :
    (s t : Bytes)
    → All IsByte s
    → All IsByte t
    → encode_participant s ≡ encode_participant t
    → s ≡ t
encode_participant-injective s t hs ht e =
    sym (decode-encode_participant s hs) ∙ ap decode e ∙ decode-encode_participant t ht
