-- ===== src/Domain/Canonical.antt =====
-- internal/domain/hash.go: `canonicalJSON`, the text of decoded JSON with sorted keys.
pub mod Order
use chronometrics.Common.{List, [], ◌∷◌, ◌++◌, Text, txt, text_eq, join_texts, if◌then◌else◌}
use chronometrics.Common.Sorting.{sort_strings}
use chronometrics.Domain.Json.{
  Json, Items, Fields, null, bool, number, text, array, object, no_items, item, no_fields, field,
  Result, ok, err,
}

abbrev pub keys : Fields → List Text
keys no_fields = []
keys (field k v rest) = k ∷ keys rest

-- A text with its error ignored: none on an error.
abbrev pub bytes_or_none : Result Text → Text
bytes_or_none (ok s) = s
bytes_or_none (err e) = []

abbrev pub before_part : Text → Result (List Text) → Result (List Text)
before_part s (ok rest) = ok (s ∷ rest)
before_part s (err e) = err e

-- `t[k]`, canonical: nil, and so "null", where the key is missing.
abbrev pub value_at : Text → List (Text × Result Text) → Result Text
value_at k [] = ok (txt "null")
value_at k ((j, v) ∷ rest) = if text_eq k j then v else value_at k rest

abbrev pub in_brackets : Text → Text → Result (List Text) → Result Text
in_brackets l r (ok parts) = ok (l ++ (join_texts (txt ",") parts ++ r))
in_brackets l r (err e) = err e

-- `marshal` is `json.Marshal`.
module _ (marshal : Json → Result Text) where
  abbrev pub part : Text → Result Text → Result (List Text) → Result (List Text)
  part k (err e) rest = err e
  part k (ok v) rest = before_part (bytes_or_none (marshal (text k)) ++ (txt ":" ++ v)) rest

  -- The loop over the sorted keys: the first error ends it.
  unfoldable pub parts : List (Text × Result Text) → List Text → Result (List Text)
  parts values [] = ok []
  parts values (k ∷ ks) = part k (value_at k values) (parts values ks)

  abbrev pub element : Result Text → Result (List Text) → Result (List Text)
  element (err e) rest = err e
  element (ok v) rest = before_part v rest

  -- A map's values are canonical before the keys are sorted: only the first error is kept, as the
  -- order of the sorted keys decides it.
  unfoldable mutual
    unfolding parts

    pub canonical_json : Json → Result Text
    canonical_json null = ok (txt "null")
    canonical_json (object fields) =
        in_brackets (txt "{") (txt "}")
          (parts (canonical_values fields) (sort_strings (keys fields)))
    canonical_json (array items) = in_brackets (txt "[") (txt "]") (canonical_items items)
    canonical_json (bool b) = marshal (bool b)
    canonical_json (number n) = marshal (number n)
    canonical_json (text s) = marshal (text s)

    pub canonical_items : Items → Result (List Text)
    canonical_items no_items = ok []
    canonical_items (item v rest) = element (canonical_json v) (canonical_items rest)

    pub canonical_values : Fields → List (Text × Result Text)
    canonical_values no_fields = []
    canonical_values (field k v rest) = (k, canonical_json v) ∷ canonical_values rest
