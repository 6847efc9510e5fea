-- ===== src/Policy.antt =====
-- agentserve/policy.py: the cache retention policies behind one interface.
pub mod Order
pub mod Placements
use agentserve.Common.{
  ℕ, ◌-◌, ◌≡◌, refl, arith, ltb, leb, String, Bool, true, false, not, ◌&&◌, ◌||◌, List, Perm,
  if◌then◌else◌,
}
use agentserve.Common.Int.{ℤ, ltb_ℤ, sub_ℕ}
use agentserve.Common.Sort.{sorted, sorted-perm}
use agentserve.Config.{PolicyConfig}
use agentserve.Models.{CacheEntry, predicted_idle_ms}

-- Where a completed session's cache should live.
pub data Placement : Type 0 where
  pin_gpu offload_dram drop : Placement

-- The protocol that a replica relies on. The victims are the given entries, in the order in which
-- they are given up.
pub record CachePolicy : Type 0 where
  pub name : String
  pub on_release : CacheEntry → ℕ → Placement
  pub victim_order : List CacheEntry → ℕ → List CacheEntry
  pub victim_order-perm :
      (entries : List CacheEntry) (now_ms : ℕ) → Perm (victim_order entries now_ms) entries

-- `LruPolicy`: keep everything, evict the oldest touch first.
unfoldable pub older_touch : CacheEntry → CacheEntry → Bool
older_touch e f = ltb e.last_touch_ms f.last_touch_ms

unfoldable pub lru_policy : CachePolicy
unfolding older_touch
lru_policy = record {
  name = "lru";
  on_release = λ entry now_ms. pin_gpu;
  victim_order = λ entries now_ms. sorted older_touch entries;
  victim_order-perm = λ entries now_ms. sorted-perm older_touch entries;
}

-- The first part of a score: `float("inf")`, or the time to the predicted return.
pub data Due : Type 0 where
  infinite : Due
  finite : ℤ → Due

abbrev pub ltb_due : Due → Due → Bool
ltb_due infinite b = false
ltb_due (finite a) infinite = true
ltb_due (finite a) (finite b) = ltb_ℤ a b

-- The order of Python's pairs.
abbrev pub ltb_score : Due × ℕ → Due × ℕ → Bool
ltb_score (a, s) (b, t) = ltb_due a b || (not (ltb_due b a) && ltb s t)

module _ (config : PolicyConfig) where
  unfoldable pub on_release : CacheEntry → ℕ → Placement
  on_release entry now_ms =
      let idle = predicted_idle_ms entry in
      if leb idle config.pin_threshold_ms
      then pin_gpu
      else (if leb idle config.offload_threshold_ms then offload_dram else drop)

  -- The threshold is no negative number, so the subtraction may stop at 0.
  unfoldable pub is_dead : CacheEntry → ℕ → Bool
  is_dead e now_ms = ltb config.dead_session_ms (now_ms - e.last_touch_ms)

  unfoldable pub score : ℕ → CacheEntry → Due × ℕ
  unfolding is_dead
  score now_ms e =
      if is_dead e now_ms
      then (infinite, e.last_touch_ms)
      else (finite (sub_ℕ e.predicted_return_ms now_ms), e.last_touch_ms)

  -- `reverse=True`: the higher score comes first.
  unfoldable pub higher_score : ℕ → CacheEntry → CacheEntry → Bool
  unfolding score
  higher_score now_ms e f = ltb_score (score now_ms f) (score now_ms e)

  unfoldable pub adaptive_ttl_policy : CachePolicy
  unfolding on_release higher_score
  adaptive_ttl_policy = record {
    name = "adaptive-ttl";
    on_release = on_release;
    victim_order = λ entries now_ms. sorted (higher_score now_ms) entries;
    victim_order-perm = λ entries now_ms. sorted-perm (higher_score now_ms) entries;
  }
