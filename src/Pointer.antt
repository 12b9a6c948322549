-- ===== src/Pointer.antt =====
-- internal/resolver/jsonpointer.go: RFC 6901 pointers. A located value is `some`; Go's `false` is
-- `none`.
pub mod Escape
pub mod Laws
use consent_owner_resolver.Prelude.{
  List, [], ◌∷◌, ◌++◌, Option, none, some, Bytes, str, eqb, get_elem?, if◌then◌else◌,
}
use consent_owner_resolver.Prelude.Int.{ℤ, pos, negsuc}
use consent_owner_resolver.Json.{Json, string, array, object, elements, lookup}
use consent_owner_resolver.Go.Strings.{split, replace_all}
use consent_owner_resolver.Go.Strconv.{atoi}

infixl 5 ◌>>=◌
abbrev pub ◌>>=◌ {ℓ κ} : {A : Type ℓ} {B : Type κ} → Option A → (A → Option B) → Option B
none >>= k = none
some a >>= k = k a

-- The two replacements at the head of the loop body.
unfoldable pub unescape : Bytes → Bytes
unfolding replace_all str
unescape tok = replace_all (replace_all tok (str "~1") (str "/")) (str "~0") (str "~")

-- The two replacements of `joinPointer`.
unfoldable pub escape : Bytes → Bytes
unfolding replace_all str
escape token = replace_all (replace_all token (str "~") (str "~0")) (str "/") (str "~1")

-- `node[idx]`, behind the tests on the error of `Atoi` and on the range.
unfoldable pub at_index : List Json → Option ℤ → Option Json
at_index node none = none
at_index node (some (negsuc n)) = none
at_index node (some (pos idx)) = get_elem? node idx

-- One round of the loop, on a token that is unescaped: the switch on the type of the node.
unfoldable pub step : Json → Bytes → Option Json
unfolding at_index
step (object node) tok = lookup node tok
step (array node) tok = at_index (elements node) (atoi tok)
step _ tok = none

unfoldable pub walk : Json → List Bytes → Option Json
walk cur [] = some cur
walk cur (tok ∷ toks) = step cur (unescape tok) >>= λ v. walk v toks

unfoldable pub get_json_pointer : Json → Bytes → Option Json
get_json_pointer doc [] = some doc
get_json_pointer doc (b ∷ rest) = if eqb b b'/' then walk doc (split b'/' rest) else none

unfoldable pub join_pointer : Bytes → Bytes → Bytes
join_pointer base token = base ++ b'/' ∷ escape token

-- `v.(string)`, with the test of the type assertion.
unfoldable pub as_string : Json → Option Bytes
as_string (string s) = some s
as_string _ = none

unfoldable pub pointer_string : Json → Bytes → Option Bytes
unfolding as_string
pointer_string item pointer = get_json_pointer item pointer >>= as_string
