-- ===== src/Router/Rotation.antt =====
-- agentserve/router.py: the places to which `RoundRobinRouter` sends calls in a row.
use agentserve.Common.{
  ℕ, zero, suc, ◌+◌, ◌%◌, ◌<◌, ◌≡◌, refl, sym, ap, ◌∙◌, arith, false, some, List, [], ◌∷◌, length,
  get_elem?, ◌==◌,
}
use native.Mathlib.Nat.{add-zero}
use agentserve.Replica.{Replica}
use agentserve.Result.{Result, ok, ◌>>=◌}
use agentserve.Router.{at, select_next}

-- The replicas that `n` calls in a row are sent to.
unfoldable pub selections : List Replica → ℕ → ℕ → Result (List Replica)
unfolding select_next
selections replicas cursor zero = ok []
selections replicas cursor (suc n) = do
  (r, next) ← select_next replicas cursor
  rest ← selections replicas next n
  ok (r ∷ rest)

get_elem?-lt :
    (rs : List Replica) (i : ℕ) → i < length rs → (r : Replica) × (get_elem? rs i ≡ some r)
get_elem?-lt [] i h = elim h [ ]
get_elem?-lt (r ∷ rs) zero h = (r, refl)
get_elem?-lt (r ∷ rs) (suc i) h = get_elem?-lt rs i (omega arith)

pub select_next_lem :
    (rs : List Replica) (cursor : ℕ)
    → 0 < length rs
    → (r : Replica) × (select_next rs cursor ≡ ok (r, cursor + 1))
      × (get_elem? rs (cursor % length rs) ≡ some r)
unfolding select_next
select_next_lem rs cursor h =
    let (r, e) = get_elem?-lt rs (cursor % length rs) (omega arith) in
    let nonzero : (length rs == 0) ≡ false = ground arith in (r, rw (nonzero, at, e), e)

selections_place :
    (rs rest : List Replica) (r : Replica) (n cursor : ℕ)
    → get_elem? rs (cursor % length rs) ≡ some r
    → ((i : ℕ) → i < n → get_elem? rest i ≡ get_elem? rs ((cursor + 1 + i) % length rs))
    → (i : ℕ) → i < suc n
    → get_elem? (r ∷ rest) i ≡ get_elem? rs ((cursor + i) % length rs)
selections_place rs rest r n cursor there places zero lt = rw add-zero (sym there)
selections_place rs rest r n cursor there places (suc i) lt =
    let same : cursor + 1 + i ≡ cursor + suc i = omega arith in
    places i (omega arith) ∙ ap (λ (k : ℕ). get_elem? rs (k % length rs)) same

-- Calls in a row to the round-robin router never raise, if there is a replica, and the call number
-- `i` goes to the replica at the position `cursor + i` modulo the number of replicas.
pub selections_lem :
    (rs : List Replica) (n cursor : ℕ)
    → 0 < length rs
    → (picked : List Replica) × (selections rs cursor n ≡ ok picked)
      × (length picked ≡ n)
      × ((i : ℕ) → i < n → get_elem? picked i ≡ get_elem? rs ((cursor + i) % length rs))
unfolding selections
selections_lem rs zero cursor h = ([], refl, refl, λ i lt. elim lt [ ])
selections_lem rs (suc n) cursor h =
    let (r, e, there) = select_next_lem rs cursor h in
    let (rest, ran, len, places) = selections_lem rs n (cursor + 1) h in
    (r ∷ rest, rw (e, ran), ap suc len, selections_place rs rest r n cursor there places)
