-- ===== src/Common/Lists.antt =====
-- Lists measured and indexed by native numbers, sums, and the predicate that holds of all members.
use Prim.Native.Nat.{ℕ, zero, suc, ◌+◌}
use mathlib.Core.Path.{◌≡◌, refl, ap, ◌∙◌}
use mathlib.Core.List.{List, [], ◌∷◌, ◌++◌, Perm, Permᴰ}
use mathlib.Core.Option.{Option, none, some}
use mathlib.Core.Logic.{∥∥₁_elim}
use native.Mathlib.Nat.{ℕ_set}
use native.Mathlib.Omega.{arith}

module _ {ℓ} {A : Type ℓ} where
  abbrev pub length : List A → ℕ
  length [] = 0
  length (x ∷ xs) = suc (length xs)

  abbrev pub get_elem? : List A → ℕ → Option A
  get_elem? [] i = none
  get_elem? (x ∷ xs) zero = some x
  get_elem? (x ∷ xs) (suc i) = get_elem? xs i

  -- A write out of bounds changes nothing.
  abbrev pub set : List A → ℕ → A → List A
  set [] i v = []
  set (x ∷ xs) zero v = v ∷ xs
  set (x ∷ xs) (suc i) v = x ∷ set xs i v

  abbrev pub take : ℕ → List A → List A
  take zero xs = []
  take (suc n) [] = []
  take (suc n) (x ∷ xs) = x ∷ take n xs

  abbrev pub drop : ℕ → List A → List A
  drop zero xs = xs
  drop (suc n) [] = []
  drop (suc n) (x ∷ xs) = drop n xs

  -- The sum of `f x` over the list, as in `sum(f(x) for x in xs)`.
  abbrev pub sum_by : (A → ℕ) → List A → ℕ
  sum_by f [] = 0
  sum_by f (x ∷ xs) = f x + sum_by f xs

  abbrev pub All {κ} : (A → Type κ) → List A → Type κ
  All P [] = Unit
  All P (x ∷ xs) = P x × All P xs

  pub length-append : (xs ys : List A) → length (xs ++ ys) ≡ length xs + length ys
  length-append [] ys = omega arith
  length-append (x ∷ xs) ys = omega (arith, length-append xs ys)

  pub sum_by-append : (f : A → ℕ) (xs ys : List A) → sum_by f (xs ++ ys) ≡ sum_by f xs + sum_by f ys
  sum_by-append f [] ys = omega arith
  sum_by-append f (x ∷ xs) ys = omega (arith, sum_by-append f xs ys)

module _ {ℓ} {A : Type ℓ} where
  pub length-set : (xs : List A) (i : ℕ) (v : A) → length (set xs i v) ≡ length xs
  length-set [] i v = refl
  length-set (x ∷ xs) zero v = refl
  length-set (x ∷ xs) (suc i) v = ap suc (length-set xs i v)

  pub All-append {κ} : (P : A → Type κ) (xs ys : List A) → All P xs → All P ys → All P (xs ++ ys)
  All-append P [] ys hx hy = hy
  All-append P (x ∷ xs) ys hx hy = (hx.0, All-append P xs ys hx.1 hy)

  pub All_imp {κ μ} :
      {P : A → Type κ} {Q : A → Type μ} (f : (x : A) → P x → Q x) (xs : List A)
      → All P xs
      → All Q xs
  All_imp f [] h = tt
  All_imp f (x ∷ xs) h = (f x h.0, All_imp f xs h.1)

  -- A sum does not depend on the order.
  sum_by-permᴰ : (f : A → ℕ) {xs ys : List A} → Permᴰ xs ys → sum_by f xs ≡ sum_by f ys
  sum_by-permᴰ f Permᴰ.nil = refl
  sum_by-permᴰ f (Permᴰ.cons e p) = omega (arith, ap f e, sum_by-permᴰ f p)
  sum_by-permᴰ f (Permᴰ.swap e d) = omega (arith, ap f e, ap f d)
  sum_by-permᴰ f (Permᴰ.trans p q) = sum_by-permᴰ f p ∙ sum_by-permᴰ f q

  pub sum_by-eq_of_perm : (f : A → ℕ) {xs ys : List A} → Perm xs ys → sum_by f xs ≡ sum_by f ys
  sum_by-eq_of_perm f p = ∥∥₁_elim p (ℕ_set _ _) (sum_by-permᴰ f)
