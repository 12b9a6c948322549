-- ===== src/Items/Origin.antt =====
-- Where the claims of claimsPerItem in internal/resolver/items.go come from.
use consent_owner_resolver.Prelude.{
  ℕ, suc, ◌+◌, ◌<◌, ◌≤◌, ◌^◌, ◌≡◌, refl, sym, ◌∙◌, ap, Bool, true, false, some, List, [], ◌∷◌,
  arith, Bytes, length, get_elem?, ok, inl, inr, ◌⊎◌, All,
}
use consent_owner_resolver.Prelude.Exec.{Exec}
use consent_owner_resolver.Json.{Json, Elements, array, elements, nil, cons}
use consent_owner_resolver.Go.Strconv.{itoa, atoi-itoa}
use consent_owner_resolver.Pointer.{get_json_pointer, join_pointer, step}
use consent_owner_resolver.Pointer.Laws.{get_json_pointer-join_pointer}
use consent_owner_resolver.Types.{Claim}

-- The indices of the collection at `items` are integers of Go.
abbrev pub Fits : Json → Bytes → Type 0
Fits decoded items =
    (es : Elements)
    → get_json_pointer decoded items ≡ some (array es)
    → length (elements es) ≤ 2 ^ 63

-- An index in decimal leads from an array to its element.
step_index :
    (es : Elements) (i : ℕ) → i < 2 ^ 63 → step (array es) (itoa i) ≡ get_elem? (elements es) i
unfolding step
step_index es i h = rw (atoi-itoa i h)

-- The selector of an element leads to it.
pub join_pointer_index :
    (decoded : Json) (items : Bytes) (es : Elements) (i : ℕ)
    → get_json_pointer decoded items ≡ some (array es)
    → i < 2 ^ 63
    → get_json_pointer decoded (join_pointer items (itoa i)) ≡ get_elem? (elements es) i
join_pointer_index decoded items es i found h =
    rw (get_json_pointer-join_pointer decoded items (itoa i), found) (step_index es i h)

-- `P` relates each item, its selector and its claim, in order, from index `i` on.
abbrev pub Paired : (Json → Bytes → Claim → Type 0) → Bytes → ℕ → List Json → List Claim → Type 0
Paired P items i [] [] = Unit
Paired P items i (item ∷ rest) (c ∷ cs) =
    P item (join_pointer items (itoa i)) c × Paired P items (suc i) rest cs
Paired P items i _ _ = ⊥

-- How the claims of a payload come about: one at the item itself, or one for each element.
abbrev pub Origin : (Json → Bytes → Claim → Type 0) → Json → Bytes → Bool → List Claim → Type 0
Origin P decoded items is_array cs =
    ((is_array ≡ false)
      × (root : Json) × (c : Claim) × (get_json_pointer decoded items ≡ some root)
      × (cs ≡ c ∷ [])
      × P root items c)
    ⊎ ((is_array ≡ true)
        × (es : Elements) × (get_json_pointer decoded items ≡ some (array es))
        × Paired P items 0 (elements es) cs)

-- A claim with the item that its builder was given and a pointer to that item.
abbrev pub Located : (Json → Bytes → Claim → Type 0) → Json → Claim → Type 0
Located P decoded c =
    (item : Json) × (selector : Bytes) × P item selector c
    × (get_json_pointer decoded selector ≡ some item)

-- What a claim builder guarantees when it returns.
abbrev pub Builds :
    {S : Type 0} → (Json → Bytes → Claim → Type 0) → (Json → Bytes → Exec S Claim) → Type 0
Builds {S} P build =
    (item : Json) (selector : Bytes) (s : S) (c : Claim)
    → (build item selector s).0 ≡ ok c
    → P item selector c

module _ (P : Json → Bytes → Claim → Type 0) where
  Paired-Located :
      (decoded : Json) (items : Bytes) (es : Elements) (i : ℕ) (rest : List Json) (cs : List Claim)
      → get_json_pointer decoded items ≡ some (array es)
      → i + length rest ≤ 2 ^ 63
      → ((j : ℕ) → get_elem? (elements es) (i + j) ≡ get_elem? rest j)
      → Paired P items i rest cs
      → All (Located P decoded) cs
  Paired-Located decoded items es i [] [] found fits same h = tt
  Paired-Located decoded items es i [] (c ∷ cs) found fits same h = absurd h
  Paired-Located decoded items es i (item ∷ rest) [] found fits same h = absurd h
  Paired-Located decoded items es i (item ∷ rest) (c ∷ cs) found fits same h = (
    (
      item,
      join_pointer items (itoa i),
      h.0,
      join_pointer_index decoded items es i found (omega arith)
          ∙ ap (get_elem? (elements es)) (omega arith)
          ∙ same 0,
    ),
    Paired-Located decoded items es (suc i) rest cs found (omega arith)
        (λ j. ap (get_elem? (elements es)) (omega arith) ∙ same (suc j)) h.1,
  )

  pub Origin-Located :
      (decoded : Json) (items : Bytes) (is_array : Bool) (cs : List Claim)
      → Fits decoded items
      → Origin P decoded items is_array cs
      → All (Located P decoded) cs
  Origin-Located decoded items is_array cs fits (inl (single, root, c, found, one, built)) =
      rw one ((root, items, built, found), tt)
  Origin-Located decoded items is_array cs fits (inr (many, es, found, paired)) =
      Paired-Located decoded items es 0 (elements es) cs found (omega (arith, fits es found))
        (λ j. ap (get_elem? (elements es)) (omega arith)) paired

  -- What each item gives to its claim holds of every claim.
  Paired-All :
      (Q : Claim → Type 0)
      → ((item : Json) (selector : Bytes) (c : Claim) → P item selector c → Q c)
      → (items : Bytes) (i : ℕ) (rest : List Json) (cs : List Claim) → Paired P items i rest cs
      → All Q cs
  Paired-All Q gives items i [] [] h = tt
  Paired-All Q gives items i [] (c ∷ cs) h = absurd h
  Paired-All Q gives items i (item ∷ rest) [] h = absurd h
  Paired-All Q gives items i (item ∷ rest) (c ∷ cs) h =
      (gives item _ c h.0, Paired-All Q gives items (suc i) rest cs h.1)

  pub Origin-All :
      (Q : Claim → Type 0)
      → ((item : Json) (selector : Bytes) (c : Claim) → P item selector c → Q c)
      → (decoded : Json) (items : Bytes) (is_array : Bool) (cs : List Claim)
      → Origin P decoded items is_array cs
      → All Q cs
  Origin-All Q gives decoded items is_array cs (inl (single, root, c, found, one, built)) =
      rw one (gives root items c built, tt)
  Origin-All Q gives decoded items is_array cs (inr (many, es, found, paired)) =
      Paired-All Q gives items 0 (elements es) cs paired

  Paired-length :
      (items : Bytes) (i : ℕ) (rest : List Json) (cs : List Claim)
      → Paired P items i rest cs
      → length cs ≡ length rest
  Paired-length items i [] [] h = refl
  Paired-length items i [] (c ∷ cs) h = absurd h
  Paired-length items i (item ∷ rest) [] h = absurd h
  Paired-length items i (item ∷ rest) (c ∷ cs) h = ap suc (Paired-length items (suc i) rest cs h.1)

  nil_of_length : (es : Elements) → length (elements es) ≡ 0 → es ≡ nil
  nil_of_length nil h = refl
  nil_of_length (cons v vs) h = absurd (omega arith)

  pub Origin-empty :
      (decoded : Json) (items : Bytes) (is_array : Bool)
      → Origin P decoded items is_array []
      → (is_array ≡ true) × (get_json_pointer decoded items ≡ some (array nil))
  Origin-empty decoded items is_array (inl (single, root, c, found, one, built)) = cc
  Origin-empty decoded items is_array (inr (many, es, found, paired)) = (
    many,
    found
        ∙ ap (λ v. some (array v))
            (nil_of_length es (sym (Paired-length items 0 (elements es) [] paired))),
  )
