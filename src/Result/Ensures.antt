-- ===== src/Result/Ensures.antt =====
-- What a call establishes of its value, unless it raises.
use agentserve.Result.{Exception, Result, ok, raise, ◌>>=◌}
use mathlib.Core.Path.{◌≡◌, refl, subst}
use native.Mathlib.Omega.{arith}

pub data Ensures {ℓ κ} {V : Type ℓ} (Post : V → Type κ) : Result V → Type (ℓ ⊔ κ) where
  escapes : {exc : Exception} → Ensures Post (raise exc)
  yields : {value : V} → Post value → Ensures Post (ok value)

module _ {ℓ κ} {V : Type ℓ} {Post : V → Type κ} where
  pub >>=-Ensures {ℓ' κ'} :
      {W : Type ℓ'} {Final : W → Type κ'} {call : Result V} {next : V → Result W}
      → Ensures Post call
      → ((value : V) → Post value → Ensures Final (next value))
      → Ensures Final (call >>= next)
  >>=-Ensures escapes after = escapes
  >>=-Ensures (yields holds) after = after _ holds

  pub Ensures-of_eq :
      (call : Result V) → ((value : V) → call ≡ ok value → Post value) → Ensures Post call
  Ensures-of_eq (raise exc) h = escapes
  Ensures-of_eq (ok value) h = yields (h value refl)

  pub Ensures-eq-ok :
      (call : Result V) (value : V) → Ensures Post call → call ≡ ok value → Post value
  Ensures-eq-ok (raise exc) value escapes e = ground (arith, e)
  Ensures-eq-ok (ok v) value (yields holds) e = subst Post (let same : v ≡ value = cc in same) holds
