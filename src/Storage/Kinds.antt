-- ===== src/Storage/Kinds.antt =====
-- The errors and key-value pairs of services/storage/storage.go.
use Prim.Native.String.{String}
use kapacitor.Prelude.{◌≡◌, refl, ◌⊎◌, inl, inr}

pub data Err : Type 0 where
  no_key_exists : Err
  no_object_exists : Err
  object_exists : Err
  cannot_commit : Err
  -- An error of a method of the stored object, with its message.
  object_failure : String → Err

pub data Result {ℓ} (A : Type ℓ) : Type ℓ where
  ok : A → Result A
  err : Err → Result A

-- A key and its value. The bytes of a value are a string.
pub record KeyValue : Type 0 where
  pub key : String
  pub value : String

pub Result-cases {ℓ} :
    {A : Type ℓ} (r : Result A) → ((e : Err) × (r ≡ err e)) ⊎ ((a : A) × (r ≡ ok a))
Result-cases (ok a) = inr (a, refl)
Result-cases (err e) = inl (e, refl)
