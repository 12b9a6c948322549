-- ===== src/Go/Fold.antt =====
-- `strings.EqualFold` against a text of small ASCII letters. Under Unicode's simple folding two
-- further characters fold to such a letter: U+017F to `s` and U+212A to `k`.
use consent_owner_resolver.Prelude.{
  ℕ, ◌+◌, Bool, ◌&&◌, [], ◌∷◌, Bytes, leb, eqb, ◌==◌, if◌then◌else◌,
}

to_lower : ℕ → ℕ
to_lower b = if leb b'A' b && leb b b'Z' then b + 32 else b

fold : Bytes → Bytes
unfolding to_lower
fold [] = []
fold (a ∷ []) = to_lower a ∷ []
fold (a ∷ b ∷ []) = if eqb a 0xc5 && eqb b 0xbf then b's' ∷ [] else to_lower a ∷ fold (b ∷ [])
fold (a ∷ b ∷ c ∷ s) =
    let long_s = b's' ∷ fold (c ∷ s) in
    let kelvin = b'k' ∷ fold s in
    let plain = to_lower a ∷ fold (b ∷ c ∷ s) in
    if eqb a 0xc5 && eqb b 0xbf
    then long_s
    else if eqb a 0xe2 && (eqb b 0x84 && eqb c 0xaa)
    then kelvin
    else plain

unfoldable pub equal_fold : Bytes → Bytes → Bool
unfolding fold
equal_fold s lower = fold s == lower
