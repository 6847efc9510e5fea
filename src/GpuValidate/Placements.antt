-- ===== src/GpuValidate/Placements.antt =====
-- scripts/gpu_validate.py: the workers on each GPU, and what they claim of its memory.
use agentserve.Common.{
  ℕ, zero, suc, ◌+◌, ◌*◌, ◌/◌, ◌%◌, ◌≤◌, ◌<◌, ◌≡◌, refl, arith, ◌⊎◌, inl, inr, Bool, true, false,
  List, [], ◌∷◌, min, ltb, leb, ◌==◌, Bool-cases, if◌then◌else◌,
}
use agentserve.GpuValidate.{WorkerPlacement, shares, memory_share, placed_from, placement}
use native.Mathlib.Nat.{div-add-mod, mod-eq_of_lt, mod-lt, mul-le-mul_left}
use agentserve.Replay.{round_ratio}
use agentserve.Result.{ok}

-- The number of workers on a GPU.
unfoldable pub workers_on : (gpu : ℕ) → List WorkerPlacement → ℕ
workers_on gpu [] = 0
workers_on gpu (p ∷ ps) = let rest = workers_on gpu ps in if p.gpu == gpu then suc rest else rest

workers_on-shared :
    (n_gpus first left : ℕ) → workers_on 0 (placed_from true n_gpus first left) ≡ left
unfolding workers_on placed_from
workers_on-shared n_gpus first zero = refl
workers_on-shared n_gpus first (suc left) =
    ground (arith, workers_on-shared n_gpus (first + 1) left)

workers_on-later :
    (gpu n_gpus first left : ℕ)
    → first + left ≤ n_gpus
    → gpu < first
    → workers_on gpu (placed_from false n_gpus first left) ≡ 0
unfolding workers_on placed_from
workers_on-later gpu n_gpus first zero h less = refl
workers_on-later gpu n_gpus first (suc left) h less =
    let same : first % n_gpus ≡ first = mod-eq_of_lt (omega (arith, h)) in
    ground (
      arith,
      same,
      less,
      workers_on-later gpu n_gpus (first + 1) left (omega (arith, h)) (omega (arith, less)),
    )

-- While there is a GPU for each worker, no two of them are on one.
workers_on-apart :
    (gpu n_gpus first left : ℕ)
    → first + left ≤ n_gpus
    → workers_on gpu (placed_from false n_gpus first left) ≤ 1
unfolding workers_on placed_from
workers_on-apart gpu n_gpus first zero h = omega arith
workers_on-apart gpu n_gpus first (suc left) h =
    let same : first % n_gpus ≡ first = mod-eq_of_lt (omega (arith, h)) in
    elim (Bool-cases (first == gpu)) [
      | inl here ↦
          rw (same, here)
            (ground (
              arith,
              here,
              workers_on-later gpu n_gpus (first + 1) left (omega (arith, h))
                  (ground (arith, here)),
            ))
      | inr other ↦
          rw (same, other) (workers_on-apart gpu n_gpus (first + 1) left (omega (arith, h)))
    ]

-- `round` goes down where the rest is at most half, and up where it is at least half.
round_ratio_cases :
    (part whole : ℕ)
    → ((round_ratio part whole ≡ part / whole) × (2 * (part % whole) ≤ whole))
      ⊎ ((round_ratio part whole ≡ part / whole + 1) × (whole ≤ 2 * (part % whole)))
unfolding round_ratio
round_ratio_cases part whole =
    let rest = 2 * (part % whole) in
    elim (Bool-cases (ltb rest whole)) [
      | inl below ↦ inl (rw below, ground (arith, below))
      | inr above ↦ elim (Bool-cases (ltb whole rest)) [
        | inl more ↦ inr (rw (above, more), ground (arith, more))
        | inr half ↦ elim (Bool-cases ((part / whole) % 2 == 0)) [
          | inl even ↦ inl (rw (above, half, even), ground (arith, half))
          | inr odd ↦ inr (rw (above, half, odd), ground (arith, above))
        ]
      ]
    ]

-- To the nearest number.
round_ratio_bounds :
    (part whole : ℕ)
    → 1 ≤ whole
    → (2 * (whole * round_ratio part whole) ≤ 2 * part + whole)
      × (2 * part ≤ 2 * (whole * round_ratio part whole) + whole)
round_ratio_bounds part whole h =
    let split = div-add-mod part whole in
    let small = mod-lt part {m = whole} h in
    elim (round_ratio_cases part whole) [
      | inl (down, little) ↦ rw down (omega (arith, split, little, small))
      | inr (up, much) ↦ rw up (omega (arith, split, much, small))
    ]

-- No worker shares its GPU.
abbrev pub Spread : (gpu part : ℕ) → List WorkerPlacement → Type 0
Spread gpu part ps = (workers_on gpu ps ≤ 1) × (part ≡ 800)

-- All workers are on the first GPU, with shares as if they were spread over all.
abbrev pub Packed : (n_gpus replicas part : ℕ) → List WorkerPlacement → Type 0
Packed n_gpus replicas part ps =
    (workers_on 0 ps ≡ replicas)
    × (2 * (replicas * part) ≤ 1_600 * n_gpus + replicas)
    × ((part ≡ 850) ⊎ (1_600 * n_gpus ≤ 2 * (replicas * part) + replicas))

packed_share :
    (n_gpus others part : ℕ)
    → memory_share true (suc others) n_gpus ≡ ok part
    → (2 * (suc others * part) ≤ 1_600 * n_gpus + suc others)
      × ((part ≡ 850) ⊎ (1_600 * n_gpus ≤ 2 * (suc others * part) + suc others))
unfolding memory_share
packed_share n_gpus others part e =
    let nearest = round_ratio (800 * n_gpus) (suc others) in
    let bounds = round_ratio_bounds (800 * n_gpus) (suc others) (omega arith) in
    let same : min 850 nearest ≡ part = cc in
    elim (Bool-cases (leb nearest 850)) [
      | inl small ↦
          let e' : part ≡ nearest = ground (arith, same, small) in
          rw e' (omega (arith, bounds.0), inr (omega (arith, bounds.1)))
      | inr large ↦
          let e' : part ≡ 850 = ground (arith, same, large) in
          let more = mul-le-mul_left {m = 850} {n = nearest} (suc others) (ground (arith, large)) in
          rw e' (omega (arith, bounds.0, more), inl refl)
    ]

packed :
    (n_gpus replicas part : ℕ)
    → memory_share true replicas n_gpus ≡ ok part
    → Packed n_gpus replicas part (placed_from true n_gpus 0 replicas)
unfolding memory_share
packed n_gpus zero part e = absurd (ground (arith, e))
packed n_gpus (suc others) part e =
    let share = packed_share n_gpus others part e in
    (workers_on-shared n_gpus 0 (suc others), share.0, share.1)

spread :
    (gpu n_gpus replicas part : ℕ)
    → memory_share false replicas n_gpus ≡ ok part
    → replicas ≤ n_gpus
    → Spread gpu part (placed_from false n_gpus 0 replicas)
unfolding memory_share
spread gpu n_gpus replicas part e h =
    (workers_on-apart gpu n_gpus 0 replicas (omega (arith, h)), ground (arith, e))

enough_gpus :
    (share_gpu : Bool) (replicas n_gpus : ℕ)
    → shares share_gpu replicas n_gpus ≡ false
    → replicas ≤ n_gpus
unfolding shares
enough_gpus true replicas n_gpus h = absurd (ground (arith, h))
enough_gpus false replicas n_gpus h = ground (arith, h)

-- If a share of the memory is computed, either there is a GPU for each worker, no GPU has more
-- than one, and each claims 800 thousandths, or all workers are on the first GPU, and together
-- claim 800 thousandths for every GPU of the machine, up to rounding, unless each claims the limit
-- of 850.
pub placement-shares :
    (share_gpu : Bool) (replicas n_gpus gpu part : ℕ)
    → memory_share (shares share_gpu replicas n_gpus) replicas n_gpus ≡ ok part
    → let ps = placement share_gpu replicas n_gpus in
      ((shares share_gpu replicas n_gpus ≡ false) × Spread gpu part ps)
      ⊎ ((shares share_gpu replicas n_gpus ≡ true) × Packed n_gpus replicas part ps)
unfolding placement
placement-shares share_gpu replicas n_gpus gpu part e =
    elim (Bool-cases (shares share_gpu replicas n_gpus)) [
      | inl shared ↦ inr (rw shared (refl, packed n_gpus replicas part (rw shared at e)))
      | inr apart ↦ inl (
          rw apart (
            refl,
            spread gpu n_gpus replicas part (rw apart at e)
                (enough_gpus share_gpu replicas n_gpus apart),
          ))
    ]
