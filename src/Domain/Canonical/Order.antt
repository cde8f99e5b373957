-- ===== src/Domain/Canonical/Order.antt =====
-- The canonical text does not depend on the order of a map (internal/domain/hash.go).
use mathlib.Core.List.Perm
use mathlib.Core.List.{Perm}
use chronometrics.Common.{
  ◌≡◌, ◌≢◌, refl, sym, ap, ◌∙◌, Bool-cases, inl, inr, List, [], ◌∷◌, Text, txt, text_eq,
  eq_of_text_eq,
}
use chronometrics.Common.Sorting.{sort_strings, sort_strings-perm}
use chronometrics.Domain.Json.{
  Json, Items, Fields, array, object, no_items, item, no_fields, field, Result,
}
use chronometrics.Domain.Canonical.{
  keys, value_at, parts, in_brackets, canonical_json, canonical_items, canonical_values,
}

-- One value in which, at any depth, the fields of a map may be listed in another order: two
-- neighbours with different keys change places.
mutual
  pub data SameJson : Json → Json → Type 0 where
    same : {v : Json} → SameJson v v
    arrays : {xs ys : Items} → SameItems xs ys → SameJson (array xs) (array ys)
    objects : {fs gs : Fields} → SameFields fs gs → SameJson (object fs) (object gs)

  pub data SameItems : Items → Items → Type 0 where
    no_more : SameItems no_items no_items
    next :
        {v w : Json} {xs ys : Items}
        → SameJson v w
        → SameItems xs ys
        → SameItems (item v xs) (item w ys)

  pub data SameFields : Fields → Fields → Type 0 where
    nil : SameFields no_fields no_fields
    cons :
        {v w : Json} {fs gs : Fields} (k : Text)
        → SameJson v w
        → SameFields fs gs
        → SameFields (field k v fs) (field k w gs)
    swap :
        {fs : Fields} (j k : Text) (v w : Json)
        → j ≢ k
        → SameFields (field j v (field k w fs)) (field k w (field j v fs))
    trans : {fs gs hs : Fields} → SameFields fs gs → SameFields gs hs → SameFields fs hs

keys-perm : {fs gs : Fields} → SameFields fs gs → Perm (keys fs) (keys gs)
keys-perm SameFields.nil = Perm.refl []
keys-perm (SameFields.cons k v r) = Perm.cons k (keys-perm r)
keys-perm (SameFields.swap {fs} j k v w d) = Perm.swap k j (keys fs)
keys-perm (SameFields.trans p q) = Perm.trans (keys-perm p) (keys-perm q)

module _ (marshal : Json → Result Text) where
  value_at-swap :
      (i j k : Text) (v w : Result Text) (rest : List (Text × Result Text))
      → j ≢ k
      → value_at i ((j, v) ∷ (k, w) ∷ rest) ≡ value_at i ((k, w) ∷ (j, v) ∷ rest)
  value_at-swap i j k v w rest d = elim (Bool-cases (text_eq i j)) [
    | inr a ↦ rw a refl
    | inl a ↦ elim (Bool-cases (text_eq i k)) [
      | inr b ↦ rw (a, b) refl
      | inl b ↦ absurd (d (sym (eq_of_text_eq i j a) ∙ eq_of_text_eq i k b))
    ]
  ]

  parts-same :
      (xs ys : List (Text × Result Text)) (ks : List Text)
      → ((k : Text) → value_at k xs ≡ value_at k ys)
      → parts marshal xs ks ≡ parts marshal ys ks
  unfolding parts
  parts-same xs ys [] h = refl
  parts-same xs ys (k ∷ ks) h = cc (h k, parts-same xs ys ks h)

  mutual
    unfolding canonical_json canonical_items canonical_values

    canonical_json-same :
        {v w : Json} → SameJson v w → canonical_json marshal v ≡ canonical_json marshal w
    canonical_json-same SameJson.same = refl
    canonical_json-same (SameJson.arrays p) = rw (canonical_items-same p) refl
    canonical_json-same (SameJson.objects {fs} {gs} p) =
        ap (λ ks. in_brackets (txt "{") (txt "}") (parts marshal (canonical_values marshal fs) ks))
          (sort_strings-perm (keys-perm p))
        ∙ ap (in_brackets (txt "{") (txt "}")) (
            parts-same (canonical_values marshal fs) (canonical_values marshal gs)
              (sort_strings (keys gs)) (λ k. value_at-same k p))

    canonical_items-same :
        {xs ys : Items} → SameItems xs ys → canonical_items marshal xs ≡ canonical_items marshal ys
    canonical_items-same SameItems.no_more = refl
    canonical_items-same (SameItems.next p q) =
        rw (canonical_json-same p, canonical_items-same q) refl

    value_at-same :
        {fs gs : Fields} (i : Text)
        → SameFields fs gs
        → value_at i (canonical_values marshal fs) ≡ value_at i (canonical_values marshal gs)
    value_at-same i SameFields.nil = refl
    value_at-same i (SameFields.cons k p q) = rw (canonical_json-same p, value_at-same i q) refl
    value_at-same i (SameFields.swap {fs} j k v w d) =
        value_at-swap i j k (canonical_json marshal v) (canonical_json marshal w)
          (canonical_values marshal fs) d
    value_at-same i (SameFields.trans p q) = value_at-same i p ∙ value_at-same i q

  -- `canonicalJSON` of two values that are the same but for the order in which the maps inside them,
  -- at any depth, list their fields, with the keys of a map distinct: the same text, or the same
  -- error. `marshal` stands for `json.Marshal` of texts, numbers and Booleans.
  pub canonical_same :
      (v w : Json) → SameJson v w → canonical_json marshal v ≡ canonical_json marshal w
  canonical_same v w p = canonical_json-same p
