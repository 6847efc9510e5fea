-- ===== src/Router/Members.antt =====
-- agentserve/router.py: properties of single replicas and the replica that a router returns.
use agentserve.Common.Int.{ℤ, pos, negsuc}
use agentserve.Common.Sort.{min_by_of_all}
use agentserve.Common.{
  ℕ, zero, suc, ◌≡◌, refl, subst, arith, inl, inr, String, Option, none, some, List, [], ◌∷◌, ◌%◌,
  length, All, get_elem?, leb, Bool-cases, Option-cases,
}
use agentserve.Replica.{Replica, inflight, lookup_session}
use agentserve.Result.{Result, ok, raise}
use agentserve.Router.Balance.{All-candidates}
use agentserve.Router.{
  SessionAffinityRouter, select_next, less_loaded, candidates, divides_by_zero, least_loaded_of,
  least_loaded, home_of, is_miss, rehome, select_home, select,
}
use agentserve.State.{SessionStore}

module _ {κ} (P : Replica → Type κ) where
  All-get_elem? :
      (rs : List Replica) (i : ℕ) (r : Replica) → All P rs → get_elem? rs i ≡ some r → P r
  All-get_elem? [] i r h e = ground arith
  All-get_elem? (s ∷ rs) zero r h e = subst P (let same : s ≡ r = cc in same) h.0
  All-get_elem? (s ∷ rs) (suc i) r h e = All-get_elem? rs i r h.1 e

  All-home_of :
      (rs : List Replica) (id : Option ℤ) (r : Replica) → All P rs → home_of rs id ≡ some r → P r
  All-home_of rs none r h e = ground arith
  All-home_of rs (some (pos i)) r h e = All-get_elem? rs i r h e
  All-home_of rs (some (negsuc i)) r h e = ground arith

  All-least_loaded_of :
      (now_ms : ℕ) (rs : List Replica) (r : Replica)
      → All P rs
      → least_loaded_of now_ms rs ≡ ok r
      → P r
  unfolding least_loaded_of
  All-least_loaded_of now_ms [] r h e = ground arith
  All-least_loaded_of now_ms (s ∷ rs) r h e = elim (Bool-cases (divides_by_zero (s ∷ rs))) [
    | inl zero_capacity ↦ absurd (ground (arith, zero_capacity, e))
    | inr positive ↦
        subst P (ground (arith, positive, e)) (min_by_of_all (less_loaded now_ms) P s rs h.0 h.1)
  ]

  All-least_loaded :
      (rs : List Replica) (now_ms : ℕ) (avoid : Option ℕ) (r : Replica)
      → All P rs
      → least_loaded rs now_ms avoid ≡ ok r
      → P r
  unfolding least_loaded
  All-least_loaded rs now_ms avoid r h e =
      All-least_loaded_of now_ms (candidates avoid rs) r (All-candidates P avoid rs h) e

  pub All-select_next :
      (rs : List Replica) (cursor next : ℕ) (r : Replica)
      → All P rs
      → select_next rs cursor ≡ ok (r, next)
      → P r
  unfolding select_next
  All-select_next rs cursor next r h e = elim (Option-cases (get_elem? rs (cursor % length rs))) [
    | inl missing ↦ absurd (ground (arith, missing, e))
    | inr (x, found) ↦
        subst P (ground (arith, found, e)) (All-get_elem? rs (cursor % length rs) x h found)
  ]

  module _ {S : Type 0} (ops : SessionStore S) (rs : List Replica) (h : All P rs)
      (r : Replica) where
    All-rehome :
        (router : SessionAffinityRouter S) (write_at : ℕ) (session_id : String) (now_ms : ℕ)
        → (rehome ops rs router write_at session_id now_ms).1 ≡ ok r
        → P r
    unfolding rehome
    All-rehome router write_at sid now_ms e =
        All-least_loaded rs now_ms none r h (ground (arith, e))

    All-select_home :
        (router : SessionAffinityRouter S) (write_at : ℕ) (session_id : String) (now_ms : ℕ)
        (home : Option Replica)
        → ((x : Replica) → home ≡ some x → P x)
        → (select_home ops rs router write_at session_id now_ms home).1 ≡ ok r
        → P r
    unfolding select_home
    All-select_home router write_at sid now_ms none hm e = All-rehome router write_at sid now_ms e
    All-select_home router write_at sid now_ms (some home) hm e =
        elim (Bool-cases (is_miss (lookup_session home sid).0)) [
          | inl miss ↦ All-rehome router write_at sid now_ms (ground (arith, miss, e))
          | inr warm ↦ elim (Bool-cases (leb (inflight home) router.config.affinity_queue_limit)) [
            | inl within ↦ subst P (ground (arith, warm, within, e)) (hm home refl)
            | inr over ↦
                All-least_loaded rs now_ms (some home.id) r h (ground (arith, warm, over, e))
          ]
        ]

    pub All-select :
        (router : SessionAffinityRouter S) (read_at write_at : ℕ) (session_id : String) (now_ms : ℕ)
        → (select ops rs router read_at write_at session_id now_ms).1 ≡ ok r
        → P r
    unfolding select
    All-select router read_at write_at sid now_ms e =
        go (ops.get_home read_at sid router.store).1 refl
      where
        store : S
        store = (ops.get_home read_at sid router.store).0

        go : (found : Result (Option ℤ)) → (ops.get_home read_at sid router.store).1 ≡ found → P r
        go (raise x) same = absurd (ground (arith, same, e))
        go (ok id) same =
            All-select_home (record router { store = store }) write_at sid now_ms (home_of rs id)
              (λ x there. All-home_of rs id x h there) (ground (arith, same, e))
