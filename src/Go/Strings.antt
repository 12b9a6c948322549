-- ===== src/Go/Strings.antt =====
-- Package `strings`, over bytes: `ReplaceAll`, `Split` at one byte, `Cut`, `HasPrefix`.
use consent_owner_resolver.Prelude.{
  ℕ, zero, suc, ◌-◌, ◌≡◌, ◌≢◌, refl, List, [], ◌∷◌, ◌++◌, arith, Bytes, length, All, eqb,
  has_prefix, if◌then◌else◌,
}

-- `skip` bytes of the last match are still to be passed over.
replace_from : Bytes → Bytes → ℕ → Bytes → Bytes
replace_from old new skip [] = []
replace_from old new (suc k) (b ∷ s) = replace_from old new k s
replace_from old new zero (b ∷ s) =
    let hit = new ++ replace_from old new (length old - 1) s in
    let miss = b ∷ replace_from old new zero s in if has_prefix (b ∷ s) old then hit else miss

-- `strings.ReplaceAll(s, old, new)`, for an `old` that is not empty.
unfoldable pub replace_all : Bytes → Bytes → Bytes → Bytes
unfolding replace_from
replace_all s old new = replace_from old new zero s

cons_head : ℕ → List Bytes → List Bytes
cons_head b [] = (b ∷ []) ∷ []
cons_head b (part ∷ parts) = (b ∷ part) ∷ parts

-- `strings.Split(s, sep)`, for a separator of one byte.
unfoldable pub split : ℕ → Bytes → List Bytes
unfolding cons_head
split sep [] = [] ∷ []
split sep (b ∷ s) = if eqb b sep then [] ∷ split sep s else cons_head b (split sep s)

abbrev pub Lacks : ℕ → Bytes → Type 0
Lacks sep = All (λ b. b ≢ sep)

split-ne-nil : (sep : ℕ) (s : Bytes) → split sep s ≢ []
unfolding split
split-ne-nil sep [] = cc
split-ne-nil sep (b ∷ s) = ground (arith, split-ne-nil sep s)

cons_head-append :
    (b : ℕ) (xs ys : List Bytes) → xs ≢ [] → cons_head b (xs ++ ys) ≡ cons_head b xs ++ ys
unfolding cons_head
cons_head-append b [] ys h = absurd (h refl)
cons_head-append b (x ∷ xs) ys h = refl

-- A text without the separator is one part.
pub split-Lacks : (sep : ℕ) (s : Bytes) → Lacks sep s → split sep s ≡ s ∷ []
unfolding split
split-Lacks sep [] h = refl
split-Lacks sep (b ∷ s) h = ground (arith, split-Lacks sep s h.1, h.0)

-- The last part of a text stands behind the last separator.
pub split-append :
    (sep : ℕ) (s t : Bytes) → Lacks sep t → split sep (s ++ sep ∷ t) ≡ split sep s ++ t ∷ []
unfolding split
split-append sep [] t h = ground (arith, split-Lacks sep t h)
split-append sep (b ∷ s) t h =
    ground (
      arith,
      split-append sep s t h,
      cons_head-append b (split sep s) (t ∷ []) (split-ne-nil sep s),
    )

-- A byte stays if it is no `c`, or if something behind it stays.
trimmed : ℕ → ℕ → Bytes → Bytes
trimmed c b [] = if eqb b c then [] else b ∷ []
trimmed c b (d ∷ s) = b ∷ d ∷ s

-- `strings.TrimRight(s, cutset)`, for a cutset of one byte.
unfoldable pub trim_right : Bytes → ℕ → Bytes
unfolding trimmed
trim_right [] c = []
trim_right (b ∷ s) c = trimmed c b (trim_right s c)

-- `s[:n]`, and all of `s` if it is shorter.
unfoldable pub take : ℕ → Bytes → Bytes
take n [] = []
take zero (b ∷ s) = []
take (suc n) (b ∷ s) = b ∷ take n s
