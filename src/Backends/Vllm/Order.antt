-- ===== src/Backends/Vllm/Order.antt =====
-- agentserve/backends/vllm.py: the order of the workers that a call tries.
use agentserve.Backends.Vllm.{VllmBackend, all_but, fallbacks}
use mathlib.Core.List.{append-nil}
use agentserve.Common.{
  ℕ, zero, suc, ◌+◌, ◌≤◌, ◌<◌, ◌≡◌, ◌≢◌, refl, arith, min, ◌==◌, inl, inr, List, [], ◌∷◌, ◌++◌,
  length, take, All, All-append, All_imp, length-append, Bool-cases,
}

-- No number stands twice.
abbrev pub Apart : List ℕ → Type 0
Apart [] = Unit
Apart (x ∷ xs) = All (λ y. x ≢ y) xs × Apart xs

Apart-snoc : (xs : List ℕ) (n : ℕ) → All (λ x. x < n) xs → Apart xs → Apart (xs ++ n ∷ [])
Apart-snoc [] n h a = (tt, tt)
Apart-snoc (x ∷ xs) n h a =
    (All-append (λ y. x ≢ y) xs (n ∷ []) a.0 ((omega arith), tt), Apart-snoc xs n h.1 a.1)

all_but-lt : (id n : ℕ) → All (λ i. i < n) (all_but id n)
unfolding all_but
all_but-lt id zero = tt
all_but-lt id (suc n) = elim (Bool-cases (n == id)) [
  | inl here ↦ rw here (
      All-append (λ i. i < suc n) (all_but id n) []
        (All_imp (λ i h. omega arith) (all_but id n) (all_but-lt id n)) tt)
  | inr other ↦ rw other (
      All-append (λ i. i < suc n) (all_but id n) (n ∷ [])
        (All_imp (λ i h. omega arith) (all_but id n) (all_but-lt id n)) (omega arith, tt))
]

all_but-ne : (id n : ℕ) → All (λ i. id ≢ i) (all_but id n)
unfolding all_but
all_but-ne id zero = tt
all_but-ne id (suc n) = elim (Bool-cases (n == id)) [
  | inl here ↦ rw here (All-append (λ i. id ≢ i) (all_but id n) [] (all_but-ne id n) tt)
  | inr other ↦ rw other (
      All-append (λ i. id ≢ i) (all_but id n) (n ∷ []) (all_but-ne id n)
        (ground (arith, other), tt))
]

Apart-all_but : (id n : ℕ) → Apart (all_but id n)
unfolding all_but
Apart-all_but id zero = tt
Apart-all_but id (suc n) = elim (Bool-cases (n == id)) [
  | inl here ↦ rw (here, append-nil) (Apart-all_but id n)
  | inr other ↦ rw other (Apart-snoc (all_but id n) n (all_but-lt id n) (Apart-all_but id n))
]

length-all_but_ge : (id n : ℕ) → n ≤ id → length (all_but id n) ≡ n
unfolding all_but
length-all_but_ge id zero h = refl
length-all_but_ge id (suc n) h =
    ground (arith, length-all_but_ge id n, length-append (all_but id n) (n ∷ []))

-- One number is left out.
length-all_but : (id n : ℕ) → id < n → length (all_but id n) + 1 ≡ n
unfolding all_but
length-all_but id zero h = elim h [ ]
length-all_but id (suc n) h = ground (
  arith,
  length-all_but id n,
  length-all_but_ge id n,
  length-append (all_but id n) (n ∷ []),
  length-append (all_but id n) [],
)

module _ {κ} (P : ℕ → Type κ) where
  All-take : (n : ℕ) (xs : List ℕ) → All P xs → All P (take n xs)
  All-take zero xs h = tt
  All-take (suc n) [] h = tt
  All-take (suc n) (x ∷ xs) h = (h.0, All-take n xs h.1)

Apart-take : (n : ℕ) (xs : List ℕ) → Apart xs → Apart (take n xs)
Apart-take zero xs h = tt
Apart-take (suc n) [] h = tt
Apart-take (suc n) (x ∷ xs) h = (All-take (λ y. x ≢ y) n xs h.0, Apart-take n xs h.1)

length-take : (n : ℕ) (xs : List ℕ) → length (take n xs) ≡ min n (length xs)
length-take zero xs = omega arith
length-take (suc n) [] = omega arith
length-take (suc n) (x ∷ xs) = omega (arith, length-take n xs)

-- A call tries the scheduled worker first. If that is one of the workers, no worker is tried
-- twice, each number names a worker, and as many are tried as there are, up to one more than the
-- retries.
pub fallbacks_lem :
    (b : VllmBackend) (id : ℕ)
    → id < length b.endpoints
    → ((rest : List ℕ) × (fallbacks b id ≡ id ∷ rest))
      × Apart (fallbacks b id)
      × All (λ i. i < length b.endpoints) (fallbacks b id)
      × (length (fallbacks b id) ≡ min (b.max_retries + 1) (length b.endpoints))
unfolding fallbacks
fallbacks_lem b id h =
    let n = length b.endpoints in
    let order = id ∷ all_but id n in
    (
      (take b.max_retries (all_but id n), refl),
      Apart-take (suc b.max_retries) order (all_but-ne id n, Apart-all_but id n),
      All-take (λ i. i < n) (suc b.max_retries) order (h, all_but-lt id n),
      omega (arith, length-take b.max_retries (all_but id n), length-all_but id n h),
    )
