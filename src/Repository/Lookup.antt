-- ===== src/Repository/Lookup.antt =====
-- internal/repository/query.go: `get`, with its table made by the first call.
use chronometrics.Common.{
  ◌≡◌, refl, Option, none, some, List, [], ◌∷◌, Text, txt, text_eq, if◌then◌else◌,
}

abbrev Table : Type 0
Table = List (Text × Text)

-- Indexing the map: the zero value, an empty string, for a key that it does not have.
unfoldable pub lookup : Table → Text → Text
lookup [] key = []
lookup ((k, v) ∷ rest) key = if text_eq k key then v else lookup rest key

abbrev dimensions : Table
dimensions = (txt "a", txt "b") ∷ []

-- `once.Do`: the table is made once.
abbrev once : Option Table → Table
once none = dimensions
once (some table) = table

unfoldable pub get : Text → Option Table → Option Table × Text
unfolding lookup
get key state = (some (once state), lookup (once state) key)

-- What a call gives does not depend on the calls before it.
pub get-get : (key other : Text) → (get key (get other none).0).1 ≡ (get key none).1
unfolding get
get-get key other = refl
