-- ===== src/State.antt =====
-- agentserve/state.py: the map from sessions to replicas.
pub mod Memory
pub mod Redis
use agentserve.Common.Int.{ℤ}
use agentserve.Common.{ℕ, String, Option}
use agentserve.Result.{Result}

-- The protocol `SessionStore`, over the state of an implementation. Each call is given the time of
-- the clock that the implementation reads, in ticks. A call that may raise returns a result.
pub record SessionStore (S : Type 0) : Type 0 where
  pub get_home : (clock : ℕ) → String → S → S × Result (Option ℤ)
  pub set_home : (clock : ℕ) → String → ℕ → S → S
  pub get_last_seen : (clock : ℕ) → String → S → S × Result (Option ℕ)
  pub set_last_seen : (clock : ℕ) → String → ℕ → S → S
  pub size : S → S × ℤ
