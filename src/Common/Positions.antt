-- ===== src/Common/Positions.antt =====
-- The predicate that holds of all members of a list, each at its position.
use Prim.Native.Nat.{ℕ, zero, suc, ◌+◌, ◌<◌}
use mathlib.Core.Path.{◌≡◌, refl, ap, ◌∙◌, subst}
use mathlib.Core.List.{List, [], ◌∷◌, map}
use mathlib.Core.Logic.{◌≢◌}
use mathlib.Core.Option.{some}
use native.Mathlib.Omega.{arith}
use agentserve.Common.Lists.{get_elem?, set, All, length}

module _ {ℓ κ} {A : Type ℓ} where
  abbrev pub AllAt : (ℕ → A → Type κ) → ℕ → List A → Type κ
  AllAt P i [] = Unit
  AllAt P i (x ∷ xs) = P i x × AllAt P (suc i) xs

  pub AllAt-get_elem? :
      (P : ℕ → A → Type κ) (n i : ℕ) (xs : List A) (x : A)
      → AllAt P n xs
      → get_elem? xs i ≡ some x
      → P (n + i) x
  AllAt-get_elem? P n i [] x h e = ground arith
  AllAt-get_elem? P n zero (y ∷ ys) x h e =
      subst (P (n + 0)) (let same : y ≡ x = cc in same)
        (subst (λ k. P k y) (let same : n ≡ n + 0 = omega arith in same) h.0)
  AllAt-get_elem? P n (suc i) (y ∷ ys) x h e =
      subst (λ k. P k x) (let same : suc n + i ≡ n + suc i = omega arith in same)
        (AllAt-get_elem? P (suc n) i ys x h.1 e)

  pub AllAt-map :
      (P Q : ℕ → A → Type κ) (f : A → A) (n : ℕ) (xs : List A)
      → ((i : ℕ) (x : A) → P i x → Q i (f x))
      → AllAt P n xs
      → AllAt Q n (map f xs)
  AllAt-map P Q f n [] g h = tt
  AllAt-map P Q f n (x ∷ xs) g h = (g n x h.0, AllAt-map P Q f (suc n) xs g h.1)

  pub AllAt-imp :
      (P Q : ℕ → A → Type κ) (n : ℕ) (xs : List A)
      → ((i : ℕ) (x : A) → P i x → Q i x)
      → AllAt P n xs
      → AllAt Q n xs
  AllAt-imp P Q n [] g h = tt
  AllAt-imp P Q n (x ∷ xs) g h = (g n x h.0, AllAt-imp P Q (suc n) xs g h.1)

  -- After a write at one position, what holds of the others may follow from what held before.
  pub AllAt-set :
      (P Q : ℕ → A → Type κ) (n i : ℕ) (v : A) (xs : List A)
      → ((j : ℕ) (x : A) → j ≢ n + i → P j x → Q j x)
      → Q (n + i) v
      → AllAt P n xs
      → AllAt Q n (set xs i v)
  AllAt-set P Q n i v [] g q h = tt
  AllAt-set P Q n zero v (x ∷ xs) g q h = (
    subst (λ k. Q k v) (let same : n + 0 ≡ n = omega arith in same) q,
    AllAt-after (suc n) n xs (omega arith) (λ j y far p. g j y (λ e. far (omega (arith, e))) p) h.1,
  )
    where
      AllAt-after :
          (m k : ℕ) (ys : List A)
          → k < m
          → ((j : ℕ) (y : A) → j ≢ k → P j y → Q j y)
          → AllAt P m ys
          → AllAt Q m ys
      AllAt-after m k [] less f all = tt
      AllAt-after m k (y ∷ ys) less f all = (
        f m y (λ e. omega (arith, e, less)) all.0,
        AllAt-after (suc m) k ys (omega (arith, less)) f all.1,
      )
  AllAt-set P Q n (suc i) v (x ∷ xs) g q h = (
    g n x (λ e. omega (arith, e)) h.0,
    AllAt-set P Q (suc n) i v xs (λ j y far p. g j y (λ e. far (omega (arith, e))) p)
        (subst (λ k. Q k v) (let same : n + suc i ≡ suc n + i = omega arith in same) q) h.1,
  )

  pub All-AllAt : (P : A → Type κ) (n : ℕ) (xs : List A) → AllAt (λ i x. P x) n xs → All P xs
  All-AllAt P n [] h = tt
  All-AllAt P n (x ∷ xs) h = (h.0, All-AllAt P (suc n) xs h.1)

  -- The positions end with the list.
  pub AllAt-lt :
      (P : ℕ → A → Type κ) (n : ℕ) (xs : List A)
      → AllAt P n xs
      → AllAt (λ i x. P i x × (i < n + length xs)) n xs
  AllAt-lt P n [] h = tt
  AllAt-lt P n (x ∷ xs) h = (
    (h.0, omega arith),
    AllAt-imp (λ i y. P i y × (i < suc n + length xs)) (λ i y. P i y × (i < n + suc (length xs)))
        (suc n) xs (λ i y p. (p.0, omega (arith, p.1))) (AllAt-lt P (suc n) xs h.1),
  )

  pub AllAt-of_All :
      (P : A → Type κ) (Q : ℕ → A → Type κ) (n : ℕ) (xs : List A)
      → ((i : ℕ) (x : A) → i < n + length xs → P x → Q i x)
      → All P xs
      → AllAt Q n xs
  AllAt-of_All P Q n [] f h = tt
  AllAt-of_All P Q n (x ∷ xs) f h = (
    f n x (omega arith) h.0,
    AllAt-of_All P Q (suc n) xs (λ i y less. f i y (omega (arith, less))) h.1,
  )

  pub AllAt-with_All :
      (P : ℕ → A → Type κ) (Q : A → Type κ) (R : ℕ → A → Type κ) (n : ℕ) (xs : List A)
      → ((i : ℕ) (x : A) → P i x → Q x → R i x)
      → AllAt P n xs
      → All Q xs
      → AllAt R n xs
  AllAt-with_All P Q R n [] f h k = tt
  AllAt-with_All P Q R n (x ∷ xs) f h k = (f n x h.0 k.0, AllAt-with_All P Q R (suc n) xs f h.1 k.1)

pub get_elem?-of_lt {ℓ} :
    {A : Type ℓ} (xs : List A) (i : ℕ) → i < length xs → (x : A) × (get_elem? xs i ≡ some x)
get_elem?-of_lt [] i h = absurd (omega (arith, h))
get_elem?-of_lt (x ∷ xs) zero h = (x, refl)
get_elem?-of_lt (x ∷ xs) (suc i) h = get_elem?-of_lt xs i (omega (arith, h))

pub get_elem?-set {ℓ} :
    {A : Type ℓ} (xs : List A) (i : ℕ) (v x : A)
    → get_elem? xs i ≡ some x
    → get_elem? (set xs i v) i ≡ some v
get_elem?-set [] i v x e = ground arith
get_elem?-set (y ∷ ys) zero v x e = refl
get_elem?-set (y ∷ ys) (suc i) v x e = get_elem?-set ys i v x e

pub set-set {ℓ} : {A : Type ℓ} (xs : List A) (i : ℕ) (v w : A) → set (set xs i v) i w ≡ set xs i w
set-set [] i v w = refl
set-set (x ∷ xs) zero v w = refl
set-set (x ∷ xs) (suc i) v w = ap (◌∷◌ x) (set-set xs i v w)

module _ {ℓ} {A : Type ℓ} (index : A → ℕ) where
  among_positions :
      (whole : List A) (n : ℕ) (xs : List A)
      → ((i : ℕ) → get_elem? whole (n + i) ≡ get_elem? xs i)
      → AllAt (λ i x. index x ≡ i) n xs
      → All (λ x. get_elem? whole (index x) ≡ some x) xs
  among_positions whole n [] same h = tt
  among_positions whole n (x ∷ xs) same h = (
    ap (get_elem? whole) (let e : index x ≡ n + 0 = omega (arith, h.0) in e) ∙ same 0,
    among_positions whole (suc n) xs
        (λ i.
          ap (get_elem? whole) (let e : suc n + i ≡ n + suc i = omega arith in e) ∙ same (suc i))
        h.1,
  )

  -- Members that stand at their numbers are found there.
  pub found_at_index :
      (xs : List A)
      → AllAt (λ i x. index x ≡ i) 0 xs
      → All (λ x. get_elem? xs (index x) ≡ some x) xs
  found_at_index xs h =
      among_positions xs 0 xs (λ i. ap (get_elem? xs) (let e : 0 + i ≡ i = omega arith in e)) h
