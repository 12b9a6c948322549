-- ===== src/Go/Strconv.antt =====
-- Package `strconv`: `Itoa` and `Atoi`, in base 10.
use consent_owner_resolver.Prelude.{
  ℕ, zero, suc, ◌+◌, ◌-◌, ◌*◌, ◌/◌, ◌%◌, ◌^◌, ◌<◌, ◌≡◌, refl, ◌∙◌, ap, Bool, true, false, ◌&&◌, [],
  ◌∷◌, ◌++◌, Option, none, some, arith, Bytes, ltb, leb, eqb, if◌then◌else◌, append_assoc,
  append-nil, Bool-cases, inl, inr,
}
use consent_owner_resolver.Prelude.Int.{ℤ, pos, negsuc}

digits : ℕ → ℕ → Bytes
digits zero n = []
digits (suc fuel) n =
    let more = digits fuel (n / 10) in
    if ltb n 10 then (b'0' + n) ∷ [] else more ++ (b'0' + n % 10) ∷ []

-- `strconv.Itoa(n)`; a number has at most `n + 1` digits.
unfoldable pub itoa : ℕ → Bytes
unfolding digits
itoa n = digits (suc n) n

is_digit : ℕ → Bool
is_digit b = leb b'0' b && leb b b'9'

scan : ℕ → Bytes → Option ℕ
unfolding is_digit
scan acc [] = some acc
scan acc (b ∷ s) = let rest = scan (acc * 10 + (b - b'0')) s in if is_digit b then rest else none

in_range : Bool → ℕ → Option ℤ
in_range minus zero = some (pos 0)
in_range true (suc n) = if ltb n (2 ^ 63) then some (negsuc n) else none
in_range false (suc n) = if ltb (suc n) (2 ^ 63) then some (pos (suc n)) else none

in_range_small : (n : ℕ) → n < 2 ^ 63 → in_range false n ≡ some (pos n)
unfolding in_range
in_range_small zero h = refl
in_range_small (suc n) h = ground arith

-- The magnitude has at least one digit, and the number fits 64 bits.
signed : Bool → Bytes → Option ℤ
unfolding scan in_range
signed minus [] = none
signed minus (b ∷ s) = elim (scan 0 (b ∷ s)) [ none ↦ none | some n ↦ in_range minus n ]

-- `strconv.Atoi(s)`; `none` is any error.
unfoldable pub atoi : Bytes → Option ℤ
unfolding signed
atoi [] = none
atoi (b ∷ s) =
    if eqb b b'-'
    then signed true s
    else if eqb b b'+'
    then signed false s
    else signed false (b ∷ s)

scan_last :
    (acc m n : ℕ) (s : Bytes) → m < 10 → n ≡ acc * 10 + m → scan acc ((b'0' + m) ∷ s) ≡ scan n s
unfolding scan
scan_last acc m n s h e = ground (arith, ap (λ k. scan k s) e)

scan-digits : (fuel n : ℕ) (s : Bytes) → n < fuel → scan 0 (digits fuel n ++ s) ≡ scan n s
unfolding digits
scan-digits zero n s h = elim h [ ]
scan-digits (suc fuel) n s h = elim (Bool-cases (ltb n 10)) [
  | inl small ↦ rw small (scan_last 0 n n s (ground arith) (omega arith))
  | inr large ↦
      rw (large, append_assoc, scan-digits fuel (n / 10) _ (ground arith))
        (scan_last (n / 10) (n % 10) n s (omega arith) (omega arith))
]

-- A printed number begins with a digit.
abbrev DigitFirst : Bytes → Type 0
DigitFirst [] = ⊥
DigitFirst (b ∷ s) = is_digit b ≡ true

DigitFirst-append : (s t : Bytes) → DigitFirst s → DigitFirst (s ++ t)
DigitFirst-append [] t h = absurd h
DigitFirst-append (b ∷ s) t h = h

DigitFirst-digits : (fuel n : ℕ) → n < fuel → DigitFirst (digits fuel n)
unfolding digits is_digit
DigitFirst-digits zero n h = elim h [ ]
DigitFirst-digits (suc fuel) n h = elim (Bool-cases (ltb n 10)) [
  | inl small ↦ rw small (ground arith)
  | inr large ↦
      rw large (
        DigitFirst-append (digits fuel (n / 10)) _ (DigitFirst-digits fuel (n / 10) (ground arith)))
]

-- Without a sign the text is read as it stands.
atoi-DigitFirst : (s : Bytes) (n : ℕ) → DigitFirst s → scan 0 s ≡ some n → atoi s ≡ in_range false n
unfolding atoi is_digit
atoi-DigitFirst [] n h e = absurd h
atoi-DigitFirst (b ∷ s) n h e = ground arith

scan_all : (n : ℕ) → scan 0 (digits (suc n) n) ≡ some n
unfolding scan
scan_all n = rw append-nil at (scan-digits (suc n) n [] (omega arith))

-- Reading a printed number gives it back, while it fits 64 bits.
pub atoi-itoa : (n : ℕ) → n < 2 ^ 63 → atoi (itoa n) ≡ some (pos n)
unfolding itoa
atoi-itoa n h =
    atoi-DigitFirst (digits (suc n) n) n (DigitFirst-digits (suc n) n (omega arith)) (scan_all n)
    ∙ in_range_small n h

atoi_tests :
    (atoi (b'1' ∷ b'2' ∷ []) ≡ some (pos 12))
    × (atoi (b'-' ∷ b'1' ∷ []) ≡ some (negsuc 0))
    × (atoi (b'-' ∷ []) ≡ none)
    × (itoa 120 ≡ b'1' ∷ b'2' ∷ b'0' ∷ [])
unfolding atoi itoa
atoi_tests = (refl, refl, refl, refl)
