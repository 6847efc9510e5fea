-- ===== src/Result.antt =====
-- Python's exceptions as values: what a call that may raise returns.
pub mod Ensures
pub mod Produces
use agentserve.Common.{◌≡◌, refl, ◌⊎◌, inl, inr}

pub data Exception : Type 0 where
  value_error key_error zero_division_error index_error runtime_error config_error type_error :
      Exception
  -- Any exception that a third-party client raises.
  client_error : Exception

pub data Result {ℓ} (V : Type ℓ) : Type ℓ where
  raise : Exception → Result V
  ok : V → Result V

pub Result-cases {ℓ} :
    {V : Type ℓ} (x : Result V) → ((e : Exception) × (x ≡ raise e)) ⊎ ((v : V) × (x ≡ ok v))
Result-cases (raise e) = inl (e, refl)
Result-cases (ok v) = inr (v, refl)

-- What follows runs on the value, and an exception passes through.
infixl 5 ◌>>=◌
abbrev pub ◌>>=◌ {ℓ κ} : {V : Type ℓ} {W : Type κ} → Result V → (V → Result W) → Result W
raise exc >>= next = raise exc
ok value >>= next = next value
