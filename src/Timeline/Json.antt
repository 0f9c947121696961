-- ===== src/Timeline/Json.antt =====
-- JSON values, `canonicalise` and JSON.stringify. A number is its printed text; an object lists its
-- members in the order in which JavaScript enumerates them; texts are UTF-16 units without lone
-- surrogates.
use opa_security_awareness_a.Common.{
  ℕ, ◌+◌, ◌/◌, ◌%◌, Bool, true, false, ◌&&◌, ◌||◌, [], ◌∷◌, ◌++◌, ltb, ◌==◌, if◌then◌else◌,
}
use opa_security_awareness_a.Common.Text.{Text, codes}

mutual
  pub data Json : Type 0 where
    null : Json
    boolean : Bool → Json
    number : Text → Json
    string : Text → Json
    array : Items → Json
    object : Members → Json

  pub data Items : Type 0 where
    nil : Items
    item : Json → Items → Items

  pub data Members : Type 0 where
    end : Members
    member : Text → Json → Members → Members

-- The order of `Array.prototype.sort` on strings.
unfoldable pub text_leb : Text → Text → Bool
text_leb [] bs = true
text_leb (a ∷ r) [] = false
text_leb (a ∷ r) (b ∷ bs) = ltb a b || (a == b && text_leb r bs)

-- A member at its place among sorted keys.
unfoldable pub insert : Text → Json → Members → Members
insert k v end = member k v end
insert k v (member l w ms) =
    let rest = insert k v ms in if text_leb k l then member k v (member l w ms) else member l w rest

-- `canonicalise`: the keys sorted at every depth, the items of an array as they are.
unfoldable mutual
  unfolding insert

  pub canonicalise : Json → Json
  canonicalise null = null
  canonicalise (boolean b) = boolean b
  canonicalise (number t) = number t
  canonicalise (string t) = string t
  canonicalise (array xs) = array (canonicalise_items xs)
  canonicalise (object ms) = object (canonicalise_members ms)

  pub canonicalise_items : Items → Items
  canonicalise_items nil = nil
  canonicalise_items (item x xs) = item (canonicalise x) (canonicalise_items xs)

  pub canonicalise_members : Members → Members
  canonicalise_members end = end
  canonicalise_members (member k v ms) = insert k (canonicalise v) (canonicalise_members ms)

unfoldable hex_digit : ℕ → ℕ
hex_digit n = if ltb n 10 then n + 48 else n + 87

-- The escapes that JSON.stringify writes.
unfoldable escape_one : ℕ → Text
unfolding hex_digit
escape_one c =
    if c == b'"'
    then b'\\' ∷ b'"' ∷ []
    else if c == b'\\'
    then b'\\' ∷ b'\\' ∷ []
    else if c == 8
    then codes "\\b"
    else if c == 9
    then codes "\\t"
    else if c == 10
    then codes "\\n"
    else if c == 12
    then codes "\\f"
    else if c == 13
    then codes "\\r"
    else if ltb c 32
    then codes "\\u00" ++ hex_digit (c / 16) ∷ hex_digit (c % 16) ∷ []
    else c ∷ []

unfoldable escape : Text → Text
unfolding escape_one
escape [] = []
escape (c ∷ cs) = escape_one c ++ escape cs

abbrev quote : Text → Text
unfolding escape
quote t = b'"' ∷ escape t ++ b'"' ∷ []

-- JSON.stringify without indentation.
unfoldable mutual
  unfolding escape

  pub stringify : Json → Text
  stringify null = codes "null"
  stringify (boolean true) = codes "true"
  stringify (boolean false) = codes "false"
  stringify (number t) = t
  stringify (string t) = quote t
  stringify (array nil) = codes "[]"
  stringify (array (item x xs)) = codes "[" ++ stringify x ++ stringify_items xs
  stringify (object end) = codes "{}"
  stringify (object (member k v ms)) =
      codes "{" ++ quote k ++ codes ":" ++ stringify v ++ stringify_members ms

  pub stringify_items : Items → Text
  stringify_items nil = codes "]"
  stringify_items (item x xs) = codes "," ++ stringify x ++ stringify_items xs

  pub stringify_members : Members → Text
  stringify_members end = codes "}"
  stringify_members (member k v ms) =
      codes "," ++ quote k ++ codes ":" ++ stringify v ++ stringify_members ms
