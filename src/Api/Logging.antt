-- ===== src/Api/Logging.antt =====
-- internal/api/logging.go: what of an error and of a path is logged. The digest of a path, in
-- hexadecimal, is a parameter.
pub mod Classes
pub mod Leaves
pub mod Closed
use consent_owner_resolver.Prelude.{
  ℕ, Option, none, some, [], ◌∷◌, ◌++◌, Bytes, str, ◌==◌, has_prefix, if◌then◌else◌, Error,
}
use consent_owner_resolver.Go.Strings.{take}

abbrev pub path_digest_length : ℕ
path_digest_length = 8

abbrev pub path_digest_prefix : Bytes
path_digest_prefix = str "sha256:"

abbrev pub error_class_separator : Bytes
error_class_separator = str ": "

abbrev pub error_class_unspecified : Bytes
error_class_unspecified = str "unspecified"

unfoldable pub redact_path : (Bytes → Bytes) → Bytes → Bytes
redact_path digest path =
    if path == []
    then path_digest_prefix ++ str "empty"
    else path_digest_prefix ++ take path_digest_length (digest path)

unfoldable pub push : ℕ → Option Bytes → Option Bytes
push b none = none
push b (some head) = some (b ∷ head)

-- `strings.Cut`: the part before the separator, which is not empty, if there is one.
unfoldable pub cut : Bytes → Bytes → Option Bytes
unfolding push has_prefix
cut sep [] = none
cut sep (b ∷ s) = let rest = cut sep s in if has_prefix (b ∷ s) sep then some [] else push b rest

unfoldable pub class_of : Option Bytes → Bytes
class_of none = error_class_unspecified
class_of (some head) = if head == [] then error_class_unspecified else head

unfoldable pub error_class : Option Error → Bytes
unfolding class_of cut str ◌==◌
error_class none = []
error_class (some e) = class_of (cut error_class_separator e.message)
