-- ===== src/Result/Produces.antt =====
-- A call that does not raise, and what it establishes of its value.
use agentserve.Result.{Result, ok, ◌>>=◌}
use mathlib.Core.Path.{◌≡◌, refl, subst, sym}

pub data Produces {ℓ κ} {V : Type ℓ} (Post : V → Type κ) : Result V → Type (ℓ ⊔ κ) where
  produces : {value : V} → Post value → Produces Post (ok value)

module _ {ℓ κ} {V : Type ℓ} {Post : V → Type κ} where
  pub >>=-Produces {ℓ' κ'} :
      {W : Type ℓ'} {Final : W → Type κ'} {call : Result V} {next : V → Result W}
      → Produces Post call
      → ((value : V) → Post value → Produces Final (next value))
      → Produces Final (call >>= next)
  >>=-Produces (produces holds) after = after _ holds

  pub Produces-value :
      {call : Result V} → Produces Post call → (value : V) × (call ≡ ok value) × Post value
  Produces-value (produces holds) = (_, refl, holds)

  pub Produces-of_eq :
      {call : Result V} (value : V) → call ≡ ok value → Post value → Produces Post call
  Produces-of_eq value e holds = subst (Produces Post) (sym e) (produces holds)
