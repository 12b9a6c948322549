-- ===== src/Pointer/Escape.antt =====
-- The replacements of internal/resolver/jsonpointer.go, byte by byte.
use consent_owner_resolver.Prelude.{
  ◌≡◌, refl, ◌∙◌, ap, [], ◌∷◌, arith, Bytes, str, eqb, has_prefix, if◌then◌else◌,
}
use consent_owner_resolver.Go.Strings.{replace_all, Lacks}
use consent_owner_resolver.Pointer.{escape, unescape}

-- What each pass of `escape` does, byte by byte.
tildes : Bytes → Bytes
tildes [] = []
tildes (b ∷ s) = if eqb b b'~' then b'~' ∷ b'0' ∷ tildes s else b ∷ tildes s

both : Bytes → Bytes
both [] = []
both (b ∷ s) =
    if eqb b b'~'
    then b'~' ∷ b'0' ∷ both s
    else if eqb b b'/'
    then b'~' ∷ b'1' ∷ both s
    else b ∷ both s

first_pass : (s : Bytes) → replace_all s (str "~") (str "~0") ≡ tildes s
unfolding replace_all str has_prefix tildes
first_pass [] = refl
first_pass (b ∷ s) = ground (arith, first_pass s)

second_pass : (s : Bytes) → replace_all (tildes s) (str "/") (str "~1") ≡ both s
unfolding replace_all str has_prefix tildes both
second_pass [] = refl
second_pass (b ∷ s) = ground (arith, second_pass s)

undo_second : (s : Bytes) → replace_all (both s) (str "~1") (str "/") ≡ tildes s
unfolding replace_all str has_prefix tildes both
undo_second [] = refl
undo_second (b ∷ s) = ground (arith, undo_second s)

undo_first : (s : Bytes) → replace_all (tildes s) (str "~0") (str "~") ≡ s
unfolding replace_all str has_prefix tildes
undo_first [] = refl
undo_first (b ∷ s) = ground (arith, undo_first s)

escape-eq-both : (s : Bytes) → escape s ≡ both s
unfolding escape
escape-eq-both s = ap (λ t. replace_all t (str "/") (str "~1")) (first_pass s) ∙ second_pass s

-- Unescaping an escaped token gives the token back, whatever bytes it has.
pub unescape-escape : (s : Bytes) → unescape (escape s) ≡ s
unfolding unescape
unescape-escape s =
    ap unescape (escape-eq-both s)
    ∙ ap (λ t. replace_all t (str "~0") (str "~")) (undo_second s)
    ∙ undo_first s

Lacks-both : (s : Bytes) → Lacks b'/' (both s)
unfolding both
Lacks-both [] = tt
Lacks-both (b ∷ s) = ground (arith, Lacks-both s)

-- An escaped token has no slash, so that it is one token of a pointer.
pub Lacks-escape : (s : Bytes) → Lacks b'/' (escape s)
Lacks-escape s = rw escape-eq-both (Lacks-both s)
