-- ===== src/Tests/Data.antt =====
-- A small cluster: two replicas that hold three sessions.
use agentserve.Common.Dict.{contains, values}
use agentserve.Common.{ℕ, refl, arith, String, List, [], ◌∷◌}
use agentserve.Config.{HardwareProfile, default_hardware, default_policy}
use agentserve.Models.{CacheTier, CacheEntry}
use agentserve.Policy.{adaptive_ttl_policy, lru_policy}
use agentserve.Replica.Steps.{IsConsistent}
use agentserve.Replica.{Replica, dram_tokens}

abbrev pub small : HardwareProfile
small = record default_hardware { gpu_cache_tokens = 100; dram_cache_tokens = 200 }

abbrev pub kept : String → ℕ → CacheTier → ℕ → ℕ → CacheEntry
kept session_id tokens tier last_touch_ms predicted_return_ms = record {
  session_id = session_id;
  tokens = tokens;
  tier = tier;
  last_touch_ms = last_touch_ms;
  predicted_return_ms = predicted_return_ms;
}

-- Two sessions on the GPU and one on the DRAM tier.
abbrev pub busy : Replica
busy = record {
  id = 0;
  hw = small;
  policy = adaptive_ttl_policy default_policy;
  gpu =
      ("a", kept "a" 40 CacheTier.gpu 10 1_000) ∷ ("b", kept "b" 50 CacheTier.gpu 20 500_000) ∷ [];
  dram = ("c", kept "c" 150 CacheTier.dram 5 90_000_000) ∷ [];
  free_at_ms = 70;
  pending = [];
  active = 0;
  peak_active = 0;
  evictions = 0;
  offloads = 1;
}

abbrev pub idle : Replica
idle = record busy { id = 1; gpu = []; dram = []; free_at_ms = 0; offloads = 0 }

-- A GPU tier over its capacity, as a promotion leaves it, under the baseline policy.
abbrev pub over : Replica
over = record busy {
  policy = lru_policy;
  gpu =
      ("a", kept "a" 90 CacheTier.gpu 10 1_000) ∷ ("b", kept "b" 50 CacheTier.gpu 20 500_000) ∷ [];
}

pub busy-IsConsistent : IsConsistent busy
unfolding contains dram_tokens values
busy-IsConsistent = record {
  gpu_distinct = (refl, (refl, tt));
  dram_distinct = (refl, tt);
  gpu_keyed = ((refl, refl), ((refl, refl), tt));
  dram_keyed = ((refl, refl), tt);
  disjoint = (refl, (refl, tt));
  dram_bounded = omega arith;
}

pub over-IsConsistent : IsConsistent over
unfolding contains dram_tokens values
over-IsConsistent = record {
  gpu_distinct = (refl, (refl, tt));
  dram_distinct = (refl, tt);
  gpu_keyed = ((refl, refl), ((refl, refl), tt));
  dram_keyed = ((refl, refl), tt);
  disjoint = (refl, (refl, tt));
  dram_bounded = omega arith;
}

abbrev pub cluster : List Replica
cluster = busy ∷ idle ∷ []

pub idle-IsConsistent : IsConsistent idle
unfolding dram_tokens values
idle-IsConsistent = record {
  gpu_distinct = tt;
  dram_distinct = tt;
  gpu_keyed = tt;
  dram_keyed = tt;
  disjoint = tt;
  dram_bounded = omega arith;
}
