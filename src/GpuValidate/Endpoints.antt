-- ===== src/GpuValidate/Endpoints.antt =====
-- scripts/gpu_validate.py: the numbers and the endpoints that it prints are texts that `_csv` keeps.
use agentserve.Common.Text.{is_empty, is_space}
use agentserve.Common.{
  ℕ, zero, suc, ◌+◌, ◌/◌, ◌%◌, ◌≡◌, refl, subst, arith, inl, inr, ltb, ◌==◌, String, Bool, true,
  List, [], ◌∷◌, All, map, Bool-cases, if◌then◌else◌, false,
}
use agentserve.GpuValidate.Lists.{IsPart, AllPlain, AllPlain-append}
use agentserve.GpuValidate.{WorkerPlacement, decimal, endpoint}
use agentserve.LiveReplay.{digit, decimal_on}
use text.Mathlib.TextLemmas.{nil-append, cons-append}
use Prim.Native.Char.{code}
use Prim.Native.String.{◌++◌ as append}

-- The test for a text without spaces and commas.
abbrev all_plain : String → Bool
all_plain String.[] = true
all_plain (String.◌∷◌ c s) =
    if is_space (code c) then false else if code c == b',' then false else all_plain s

all_plain-AllPlain : (s : String) → all_plain s ≡ true → AllPlain s
all_plain-AllPlain String.[] h = tt
all_plain-AllPlain (String.◌∷◌ c s) h = elim (Bool-cases (is_space (code c))) [
  | inl space ↦ ground (arith, h, space)
  | inr solid ↦ elim (Bool-cases (code c == b',')) [
    | inl comma ↦ ground (arith, h, solid, comma)
    | inr other ↦ ((solid, other), all_plain-AllPlain s (ground (arith, h, solid, other)))
  ]
]

digit-AllPlain : (n : ℕ) → AllPlain (digit n)
digit-AllPlain zero = ((refl, refl), tt)
digit-AllPlain (suc zero) = ((refl, refl), tt)
digit-AllPlain (suc (suc zero)) = ((refl, refl), tt)
digit-AllPlain (suc (suc (suc zero))) = ((refl, refl), tt)
digit-AllPlain (suc (suc (suc (suc zero)))) = ((refl, refl), tt)
digit-AllPlain (suc (suc (suc (suc (suc zero))))) = ((refl, refl), tt)
digit-AllPlain (suc (suc (suc (suc (suc (suc zero)))))) = ((refl, refl), tt)
digit-AllPlain (suc (suc (suc (suc (suc (suc (suc zero))))))) = ((refl, refl), tt)
digit-AllPlain (suc (suc (suc (suc (suc (suc (suc (suc zero)))))))) = ((refl, refl), tt)
digit-AllPlain (suc (suc (suc (suc (suc (suc (suc (suc (suc n))))))))) = ((refl, refl), tt)

digit-full : (n : ℕ) → is_empty (digit n) ≡ false
digit-full zero = refl
digit-full (suc zero) = refl
digit-full (suc (suc zero)) = refl
digit-full (suc (suc (suc zero))) = refl
digit-full (suc (suc (suc (suc zero)))) = refl
digit-full (suc (suc (suc (suc (suc zero))))) = refl
digit-full (suc (suc (suc (suc (suc (suc zero)))))) = refl
digit-full (suc (suc (suc (suc (suc (suc (suc zero))))))) = refl
digit-full (suc (suc (suc (suc (suc (suc (suc (suc zero)))))))) = refl
digit-full (suc (suc (suc (suc (suc (suc (suc (suc (suc n))))))))) = refl

append-full : (s t : String) → is_empty t ≡ false → is_empty (append s t) ≡ false
append-full String.[] t h = rw (nil-append t) h
append-full (String.◌∷◌ c s) t h = rw (cons-append c s t)

decimal_on-AllPlain : (fuel n : ℕ) → AllPlain (decimal_on fuel n)
unfolding decimal_on
decimal_on-AllPlain zero n = tt
decimal_on-AllPlain (suc fuel) n = elim (Bool-cases (ltb n 10)) [
  | inl last ↦ rw last (digit-AllPlain n)
  | inr more ↦
      rw more (AllPlain-append _ _ (decimal_on-AllPlain fuel (n / 10)) (digit-AllPlain (n % 10)))
]

decimal_on-full : (fuel n : ℕ) → is_empty (decimal_on (suc fuel) n) ≡ false
unfolding decimal_on
decimal_on-full fuel n = elim (Bool-cases (ltb n 10)) [
  | inl last ↦ rw last (digit-full n)
  | inr more ↦ rw more (append-full _ _ (digit-full (n % 10)))
]

pub decimal-IsPart : (n : ℕ) → IsPart (decimal n)
unfolding decimal
decimal-IsPart n = (
  decimal_on-AllPlain (n + 1) n,
  subst (λ k. is_empty (decimal_on k n) ≡ false) (let e : suc n ≡ n + 1 = omega arith in e)
      (decimal_on-full n n),
)

host-AllPlain : AllPlain "http://127.0.0.1:"
host-AllPlain = all_plain-AllPlain "http://127.0.0.1:" refl

endpoint-IsPart : (p : WorkerPlacement) → IsPart (endpoint p)
unfolding endpoint
endpoint-IsPart p =
    let port = decimal-IsPart p.port in
    (AllPlain-append _ _ host-AllPlain port.0, append-full _ _ port.1)

pub endpoints-IsPart : (ps : List WorkerPlacement) → All IsPart (map endpoint ps)
endpoints-IsPart [] = tt
endpoints-IsPart (p ∷ ps) = (endpoint-IsPart p, endpoints-IsPart ps)
