-- ===== src/Base/Outcome.antt =====
-- The exceptions that the modelled functions raise, and the chain of fallible steps.

pub data Error : Type 0 where
  -- `ValueError`, `kalshi_router.errors.SchemaError`, `IdentityNotImportable`
  value_error schema_error identity_not_importable : Error

pub data Result {ℓ} (A : Type ℓ) : Type ℓ where
  ok : A → Result A
  err : Error → Result A

infixl 5 ◌>>=◌
abbrev pub ◌>>=◌ {ℓ κ} : {A : Type ℓ} {B : Type κ} → Result A → (A → Result B) → Result B
ok a >>= f = f a
err e >>= f = err e
