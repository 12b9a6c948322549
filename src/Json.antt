-- ===== src/Json.antt =====
-- Decoded JSON, as `encoding/json` stores it in an `interface{}`.
-- `null` is the nil interface: a JSON null, and the absence of a decoded value. A number is kept as
-- the bits of its float64; the program never reads one.
use consent_owner_resolver.Prelude.{
  ℕ, Bytes, ◌==◌, Option, none, some, List, [], ◌∷◌, Bool, if◌then◌else◌,
}

mutual
  pub data Json : Type 0 where
    null : Json
    bool : Bool → Json
    number : ℕ → Json
    string : Bytes → Json
    array : Elements → Json
    object : Members → Json

  pub data Elements : Type 0 where
    nil : Elements
    cons : Json → Elements → Elements

  pub data Members : Type 0 where
    end : Members
    member : Bytes → Json → Members → Members

abbrev pub elements : Elements → List Json
elements nil = []
elements (cons v vs) = v ∷ elements vs

-- `node[tok]` on a `map[string]interface{}`.
unfoldable pub lookup : Members → Bytes → Option Json
lookup end tok = none
lookup (member k v ms) tok = if k == tok then some v else lookup ms tok
