-- ===== src/Domain/Json.antt =====
-- Decoded JSON, the `interface{}` of Go's encoding/json, and what the program takes from
-- libraries: a parameter of the model.
use chronometrics.Common.{ℕ, ◌≡◌, refl, ◌⊎◌, inl, inr, Bool, Text}
use chronometrics.Common.Int.{ℤ}
use chronometrics.Errors.{Error}

-- `number` holds the bits of a `float64`.
mutual
  pub data Json : Type 0 where
    null : Json
    bool : Bool → Json
    number : ℕ → Json
    text : Text → Json
    array : Items → Json
    object : Fields → Json

  pub data Items : Type 0 where
    no_items : Items
    item : Json → Items → Items

  pub data Fields : Type 0 where
    no_fields : Fields
    field : Text → Json → Fields → Fields

-- `(A, error)`.
pub data Result {ℓ} (A : Type ℓ) : Type ℓ where
  ok : A → Result A
  err : Error → Result A

pub Result-cases {ℓ} :
    {A : Type ℓ} (r : Result A) → ((a : A) × (r ≡ ok a)) ⊎ ((e : Error) × (r ≡ err e))
Result-cases (ok a) = inl (a, refl)
Result-cases (err e) = inr (e, refl)

-- `marshal` is `json.Marshal` of a map, `hash` is `xxhash.Sum64String`, `duration_string` is
-- `time.Duration.String` and `quote` is the verb `%q`.
pub record Platform : Type 0 where
  pub marshal : Fields → Result Text
  pub hash : Text → ℕ
  pub duration_string : ℤ → Text
  pub quote : Text → Text
