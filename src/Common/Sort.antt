-- ===== src/Common/Sort.antt =====
-- Python's stable `sorted` and `min`, over a strict comparison: `precedes y x` says that the sort key
-- of `y` comes strictly before that of `x` (after it, for `reverse=True`). Elements with equal keys
-- keep their order, as Python guarantees.
use agentserve.Common.Lists.{All}
use agentserve.Common.Tests.{if◌then◌else◌, Bool-cases}
use mathlib.Core.Bool.{Bool, true, false}
use mathlib.Core.List.Perm
use mathlib.Core.List.{List, [], ◌∷◌, Perm}
use mathlib.Core.Logic.{inl, inr}
use mathlib.Core.Path.{◌≡◌, subst}

module _ {ℓ} {A : Type ℓ} (precedes : A → A → Bool) where
  insert_sorted : A → List A → List A
  insert_sorted x [] = x ∷ []
  insert_sorted x (y ∷ ys) =
      let rest = insert_sorted x ys in if precedes y x then y ∷ rest else x ∷ y ∷ ys

  unfoldable pub sorted : List A → List A
  unfolding insert_sorted
  sorted [] = []
  sorted (x ∷ xs) = insert_sorted x (sorted xs)

  -- The first of the least elements.
  unfoldable pub min_by : A → List A → A
  min_by x [] = x
  min_by x (y ∷ ys) = min_by (if precedes y x then y else x) ys

  insert_sorted-perm : (x : A) (xs : List A) → Perm (insert_sorted x xs) (x ∷ xs)
  unfolding insert_sorted
  insert_sorted-perm x [] = Perm.rfl
  insert_sorted-perm x (y ∷ ys) = elim (Bool-cases (precedes y x)) [
    | inl before ↦ rw before (Perm.trans (Perm.cons y (insert_sorted-perm x ys)) (Perm.swap x y ys))
    | inr after ↦ rw after Perm.rfl
  ]

  pub sorted-perm : (xs : List A) → Perm (sorted xs) xs
  unfolding sorted
  sorted-perm [] = Perm.rfl
  sorted-perm (x ∷ xs) =
      Perm.trans (insert_sorted-perm x (sorted xs)) (Perm.cons x (sorted-perm xs))

  All-insert_sorted_self {κ} :
      (P : A → Type κ) (x : A) (xs : List A) → P x → All P xs → All P (insert_sorted x xs)
  unfolding insert_sorted
  All-insert_sorted_self P x [] p ps = (p, tt)
  All-insert_sorted_self P x (y ∷ ys) p ps = elim (Bool-cases (precedes y x)) [
    | inl before ↦ rw before (ps.0, All-insert_sorted_self P x ys p ps.1)
    | inr after ↦ rw after (p, ps)
  ]

  pub All-sorted {κ} : (P : A → Type κ) (xs : List A) → All P xs → All P (sorted xs)
  unfolding sorted
  All-sorted P [] ps = tt
  All-sorted P (x ∷ xs) ps = All-insert_sorted_self P x (sorted xs) ps.0 (All-sorted P xs ps.1)

  -- No element stands behind one that it precedes.
  abbrev pub IsSorted : List A → Type ℓ
  IsSorted [] = Unit
  IsSorted (x ∷ xs) = All (λ y. precedes y x ≡ false) xs × IsSorted xs

-- `precedes` compares by a key of a total order: it is asymmetric, and not preceding is transitive.
pub record IsOrder {ℓ} {A : Type ℓ} (precedes : A → A → Bool) : Type ℓ where
  pub asymm : (x y : A) → precedes x y ≡ true → precedes y x ≡ false
  pub trans_not : (x y z : A) → precedes y x ≡ false → precedes z y ≡ false → precedes z x ≡ false

module _ {ℓ} {A : Type ℓ} (precedes : A → A → Bool) (order : IsOrder precedes) where
  All-insert_sorted :
      (z x : A) (xs : List A)
      → precedes x z ≡ false
      → All (λ y. precedes y z ≡ false) xs
      → All (λ y. precedes y z ≡ false) (insert_sorted precedes x xs)
  unfolding insert_sorted
  All-insert_sorted z x [] h hs = (h, tt)
  All-insert_sorted z x (y ∷ ys) h hs = elim (Bool-cases (precedes y x)) [
    | inl before ↦ rw before (hs.0, All-insert_sorted z x ys h hs.1)
    | inr after ↦ rw after (h, hs)
  ]

  All_trans :
      (x y : A) (ys : List A)
      → precedes y x ≡ false
      → All (λ z. precedes z y ≡ false) ys
      → All (λ z. precedes z x ≡ false) ys
  All_trans x y [] h hs = tt
  All_trans x y (z ∷ zs) h hs = (order.trans_not x y z h hs.0, All_trans x y zs h hs.1)

  insert_sorted-IsSorted :
      (x : A) (xs : List A) → IsSorted precedes xs → IsSorted precedes (insert_sorted precedes x xs)
  unfolding insert_sorted
  insert_sorted-IsSorted x [] h = (tt, tt)
  insert_sorted-IsSorted x (y ∷ ys) h = elim (Bool-cases (precedes y x)) [
    | inl before ↦
        rw before
          (All-insert_sorted y x ys (order.asymm y x before) h.0, insert_sorted-IsSorted x ys h.1)
    | inr after ↦ rw after ((after, All_trans x y ys after h.0), h)
  ]

  pub sorted-IsSorted : (xs : List A) → IsSorted precedes (sorted precedes xs)
  unfolding sorted
  sorted-IsSorted [] = tt
  sorted-IsSorted (x ∷ xs) = insert_sorted-IsSorted x (sorted precedes xs) (sorted-IsSorted xs)

-- What a least element is, over a relation that follows from the comparison. The relation need be
-- transitive only through elements with the property `P`.
module _ {ℓ κ μ} {A : Type ℓ} (precedes : A → A → Bool) (R : A → A → Type κ) (P : A → Type μ)
    (before : (x y : A) → precedes y x ≡ true → R y x)
    (after : (x y : A) → precedes y x ≡ false → R x y) (reflexive : (x : A) → R x x)
    (transitive : (x y z : A) → P y → R x y → R y z → R x z) where
  pub min_by-least :
      (x : A) (ys : List A) (least : A)
      → min_by precedes x ys ≡ least
      → P x
      → All P ys
      → P least × R least x × All (R least) ys
  unfolding min_by
  min_by-least x [] least e p ps = (subst P e p, subst (λ z. R z x) e (reflexive x), tt)
  min_by-least x (y ∷ ys) least e p ps = elim (Bool-cases (precedes y x)) [
    | inl earlier ↦
        let (q, first, rest) = min_by-least y ys least (rw earlier at e) ps.0 ps.1 in
        (q, transitive least y x ps.0 first (before x y earlier), (first, rest))
    | inr later ↦
        let (q, first, rest) = min_by-least x ys least (rw later at e) p ps.1 in
        (q, first, (transitive least x y p first (after x y later), rest))
  ]

module _ {ℓ κ} {A : Type ℓ} (precedes : A → A → Bool) (P : A → Type κ) where
  -- A least element is one of the elements.
  pub min_by_of_all : (x : A) (ys : List A) → P x → All P ys → P (min_by precedes x ys)
  unfolding min_by
  min_by_of_all x [] p ps = p
  min_by_of_all x (y ∷ ys) p ps = elim (Bool-cases (precedes y x)) [
    | inl earlier ↦ rw earlier (min_by_of_all y ys ps.0 ps.1)
    | inr later ↦ rw later (min_by_of_all x ys p ps.1)
  ]
