-- ===== src/Pointer/Laws.antt =====
-- Evaluation of the pointers of internal/resolver/jsonpointer.go.
use consent_owner_resolver.Prelude.{
  ◌≡◌, refl, sym, ◌∙◌, ap, List, [], ◌∷◌, ◌++◌, Option, none, some, Bytes, eqb, append-nil,
  append_assoc, Bool-cases, inl, inr,
}
use mathlib.Core.Path.{fun_ext}
use consent_owner_resolver.Go.Strings.{split-append, split-Lacks}
use consent_owner_resolver.Json.{Json}
use consent_owner_resolver.Pointer.{
  ◌>>=◌, escape, unescape, step, walk, get_json_pointer, join_pointer,
}
use consent_owner_resolver.Pointer.Escape.{unescape-escape, Lacks-escape}

bind_assoc : (o : Option Json) (f g : Json → Option Json) → (o >>= f >>= g) ≡ (o >>= λ v. f v >>= g)
bind_assoc none f g = refl
bind_assoc (some v) f g = refl

bind_some : (o : Option Json) → (o >>= some) ≡ o
bind_some none = refl
bind_some (some v) = refl

walk-append :
    (doc : Json) (toks : List Bytes) (tok : Bytes)
    → walk doc (toks ++ tok ∷ []) ≡ (walk doc toks >>= λ v. step v (unescape tok))
unfolding walk
walk-append doc [] tok = bind_some (step doc (unescape tok))
walk-append doc (t ∷ toks) tok =
    ap (λ f. step doc (unescape t) >>= f) (fun_ext (λ v. walk-append v toks tok))
    ∙ sym (bind_assoc (step doc (unescape t)) (λ v. walk v toks) (λ v. step v (unescape tok)))

-- The joined pointer leads from the value at the base by one more step, along the token that was
-- joined; where the base leads nowhere, so does the joined pointer.
pub get_json_pointer-join_pointer :
    (doc : Json) (base token : Bytes)
    → get_json_pointer doc (join_pointer base token)
      ≡ (get_json_pointer doc base >>= λ v. step v token)
unfolding get_json_pointer join_pointer walk
get_json_pointer-join_pointer doc [] token =
    rw (split-Lacks b'/' (escape token) (Lacks-escape token), walk, unescape-escape token)
      (bind_some (step doc token))
get_json_pointer-join_pointer doc (b ∷ base) token = elim (Bool-cases (eqb b b'/')) [
  | inl slash ↦
      rw (slash, split-append b'/' base (escape token) (Lacks-escape token), walk-append)
        (rw unescape-escape)
  | inr other ↦ rw other
]

-- The text of a pointer, from its reference tokens.
unfoldable pub print : List Bytes → Bytes
print [] = []
print (token ∷ tokens) = (b'/' ∷ escape token) ++ print tokens

-- The value that reference tokens lead to, one member or element at a time.
unfoldable pub navigate : Json → List Bytes → Option Json
navigate doc [] = some doc
navigate doc (token ∷ tokens) = step doc token >>= λ v. navigate v tokens

navigate_from :
    (doc : Json) (base : Bytes) (tokens : List Bytes)
    → get_json_pointer doc (base ++ print tokens)
      ≡ (get_json_pointer doc base >>= λ v. navigate v tokens)
unfolding print navigate join_pointer
navigate_from doc base [] = rw append-nil (sym (bind_some (get_json_pointer doc base)))
navigate_from doc base (token ∷ tokens) =
    rw (← append_assoc base (b'/' ∷ escape token) (print tokens)) (
      navigate_from doc (join_pointer base token) tokens
      ∙ ap (λ o. o >>= λ v. navigate v tokens) (get_json_pointer-join_pointer doc base token)
      ∙ bind_assoc (get_json_pointer doc base) (λ v. step v token) (λ v. navigate v tokens))

-- Evaluating the text of a pointer follows its reference tokens one by one, whatever bytes the
-- tokens have.
pub get_json_pointer-print :
    (doc : Json) (tokens : List Bytes) → get_json_pointer doc (print tokens) ≡ navigate doc tokens
unfolding get_json_pointer
get_json_pointer-print doc tokens = navigate_from doc [] tokens
