-- ===== src/Replica/Residence.antt =====
-- agentserve/replica.py: which sessions stay resident under the policies of agentserve/policy.py.
use agentserve.Replica.Evictions.{
  OnlyEvicts, Pinned, enforce_capacity-OnlyEvicts, Pinned-keeps, Pinned-of_mem, OnlyEvicts-Pinned,
}
use agentserve.Common.Dict.Keys.{
  All-insert_other, All-erase_other, All_of_lookup, erase-insert, sum_by-values-insert,
}
use agentserve.Common.Dict.Laws.{lookup-insert, lookup-erase}
use agentserve.Common.Dict.{lookup, insert, erase, values}
use agentserve.Common.{
  ℕ, ◌+◌, ◌-◌, ◌≤◌, ◌<◌, ◌≡◌, ◌⊎◌, ◌∙◌, refl, ap, arith, inl, inr, eq_iff, str_eq, String, true,
  none, All, sum_by, le→leb,
}
use agentserve.Config.{PolicyConfig}
use agentserve.Models.{CacheTier, CacheEntry, predicted_idle_ms}
use agentserve.Policy.{
  CachePolicy, Placement, pin_gpu, offload_dram, drop, on_release, adaptive_ttl_policy,
}
use agentserve.Replica.Steps.{IsConsistent, demote-gpu}
use agentserve.Replica.{
  Replica, gpu_tokens, dram_tokens, lookup_session, evict, park, demote, install, place,
  enforce_capacity, store,
}
use agentserve.Replica.Storing.{
  entry_of, placed, placed-IsConsistent, placed-SameRest, store-IsBounded,
}

module _ (config : PolicyConfig) (r : Replica) (c : IsConsistent r)
    (adaptive : r.policy ≡ adaptive_ttl_policy config) (session_id : String)
    (tokens now_ms predicted_return_ms : ℕ)
    (others : All (λ e. (str_eq e.0 session_id ≡ true) ⊎ Pinned config e.1) r.gpu) where
  abbrev pub entry : CacheEntry
  entry = entry_of session_id tokens now_ms predicted_return_ms

  abbrev pub after : Replica
  after = store r session_id tokens now_ms predicted_return_ms

  decided : r.policy.on_release entry now_ms ≡ on_release config entry now_ms
  unfolding adaptive_ttl_policy
  decided = ap (λ (p : CachePolicy). p.on_release entry now_ms) adaptive

  placed_decided :
      (p : Placement)
      → on_release config entry now_ms ≡ p
      → placed r entry ≡ place (install r entry) entry p
  unfolding placed install
  placed_decided p e = ap (place (install r entry) entry) (decided ∙ e)

  Pinned-if_kept : on_release config entry now_ms ≡ pin_gpu → Pinned config entry
  unfolding on_release
  Pinned-if_kept e = ground (arith, e)

  -- The sessions that stay on the GPU when the stored one leaves it.
  gone-Pinned : All (λ e. Pinned config e.1) (erase session_id (insert session_id entry r.gpu))
  gone-Pinned = rw erase-insert (All-erase_other (λ e. Pinned config e.1) session_id r.gpu others)

  placed-Pinned : All (λ e. Pinned config e.1) (placed r entry).gpu
  unfolding install place evict
  placed-Pinned = go (on_release config entry now_ms) refl
    where
      go :
          (p : Placement)
          → on_release config entry now_ms ≡ p
          → All (λ e. Pinned config e.1) (placed r entry).gpu
      go pin_gpu e = rw (placed_decided pin_gpu e) (
          All-insert_other (λ e. Pinned config e.1) session_id entry r.gpu c.gpu_distinct
            (Pinned-if_kept e) others)
      go offload_dram e =
          rw (placed_decided offload_dram e, demote-gpu (install r entry) entry) gone-Pinned
      go drop e = rw (placed_decided drop e) gone-Pinned

  placed_policy : (placed r entry).policy ≡ adaptive_ttl_policy config
  placed_policy = (placed-SameRest r entry).policy ∙ adaptive

  store-OnlyEvicts : OnlyEvicts (placed r entry) after
  unfolding store placed
  store-OnlyEvicts =
      enforce_capacity-OnlyEvicts now_ms (placed r entry) (placed-IsConsistent r entry refl c)
        (λ v m. rw placed_policy (
          Pinned-keeps config v now_ms
            (Pinned-of_mem config v (placed r entry).gpu placed-Pinned m)))

  -- After `store`, every GPU resident has a predicted idle time within the pin threshold, the
  -- stored session included. This is for the adaptive policy on a consistent replica on which
  -- every other GPU resident has a predicted idle time within the pin threshold.
  pub store-Pinned : All (λ e. Pinned config e.1) after.gpu
  store-Pinned =
      All_of_lookup (λ e. Pinned config e.1) after.gpu
        (store-IsBounded r c session_id tokens now_ms predicted_return_ms).consistent.gpu_distinct
        (λ k e found.
          OnlyEvicts-Pinned config (placed r entry) after k e store-OnlyEvicts placed-Pinned found)

  -- A session that the decision takes off the GPU is on no GPU afterwards.
  gone_from_gpu :
      (placed r entry).gpu ≡ erase session_id (install r entry).gpu
      → lookup session_id after.gpu ≡ none
  gone_from_gpu e = elim (store-OnlyEvicts.gpu session_id) [
    | inr gone ↦ gone
    | inl same ↦
        same
        ∙ ap (lookup session_id) e
        ∙ ground (
          arith,
          lookup-erase session_id session_id (install r entry).gpu,
          eq_iff session_id session_id,
        )
  ]

  decides_drop :
      config.pin_threshold_ms < predicted_return_ms - now_ms
      → config.offload_threshold_ms < predicted_return_ms - now_ms
      → on_release config entry now_ms ≡ drop
  unfolding on_release predicted_idle_ms
  decides_drop unpinned dead = ground arith

  decides_offload :
      config.pin_threshold_ms < predicted_return_ms - now_ms
      → predicted_return_ms - now_ms ≤ config.offload_threshold_ms
      → on_release config entry now_ms ≡ offload_dram
  unfolding on_release predicted_idle_ms
  decides_offload unpinned alive = ground arith

  decides_pin :
      predicted_return_ms - now_ms ≤ config.pin_threshold_ms
      → on_release config entry now_ms ≡ pin_gpu
  unfolding on_release predicted_idle_ms
  decides_pin kept = ground arith

  -- A session that is due after both thresholds is on neither tier after `store`. This is for the
  -- adaptive policy on a consistent replica on which every other GPU resident has a predicted idle
  -- time within the pin threshold.
  pub store-drops :
      config.pin_threshold_ms < predicted_return_ms - now_ms
      → config.offload_threshold_ms < predicted_return_ms - now_ms
      → lookup_session after session_id ≡ (CacheTier.miss, 0)
  unfolding lookup_session install place evict
  store-drops unpinned dead =
      let e = placed_decided drop (decides_drop unpinned dead) in
      ground (
        arith,
        gone_from_gpu (ap (λ (q : Replica). q.gpu) e),
        ap (lookup session_id) (store-OnlyEvicts.dram ∙ ap (λ (q : Replica). q.dram) e),
        lookup-erase session_id session_id r.dram,
        eq_iff session_id session_id,
      )

  -- What is left of the DRAM tier without the session.
  abbrev pub dram_others : ℕ
  dram_others = sum_by (λ e. e.tokens) (values (erase session_id r.dram))

  abbrev pub gpu_others : ℕ
  gpu_others = sum_by (λ e. e.tokens) (values (erase session_id r.gpu))

  demote-dram :
      dram_others + tokens ≤ r.hw.dram_cache_tokens
      → (demote (install r entry) entry).dram
        ≡ insert session_id (record entry { tier = CacheTier.dram }) (erase session_id r.dram)
  unfolding demote park dram_tokens install
  demote-dram room = rw (le→leb _ _ room)

  -- A session that is due between the thresholds is on the DRAM tier with all its tokens after
  -- `store`, if it fits there beside the other sessions. This is for the adaptive policy on a
  -- consistent replica on which every other GPU resident has a predicted idle time within the pin
  -- threshold.
  pub store-offloads :
      config.pin_threshold_ms < predicted_return_ms - now_ms
      → predicted_return_ms - now_ms ≤ config.offload_threshold_ms
      → dram_others + tokens ≤ r.hw.dram_cache_tokens
      → lookup_session after session_id ≡ (CacheTier.dram, tokens)
  unfolding lookup_session place
  store-offloads unpinned alive room =
      let e = placed_decided offload_dram (decides_offload unpinned alive) in
      let parked = ap (λ (q : Replica). q.dram) e ∙ demote-dram room in
      ground (
        arith,
        gone_from_gpu (ap (λ (q : Replica). q.gpu) e ∙ demote-gpu (install r entry) entry),
        ap (lookup session_id) (store-OnlyEvicts.dram ∙ parked),
        lookup-insert session_id session_id (record entry { tier = CacheTier.dram })
            (erase session_id r.dram),
        eq_iff session_id session_id,
      )

  store-eq_install :
      predicted_return_ms - now_ms ≤ config.pin_threshold_ms
      → gpu_others + tokens ≤ r.hw.gpu_cache_tokens
      → after ≡ install r entry
  unfolding store enforce_capacity gpu_tokens placed
  store-eq_install kept room =
      let fits : gpu_tokens (install r entry) ≤ r.hw.gpu_cache_tokens =
        omega (arith, sum_by-values-insert (λ e. e.tokens) session_id entry r.gpu c.gpu_distinct) in
      ap (λ (q : Replica). enforce_capacity q now_ms) (placed_decided pin_gpu (decides_pin kept))
      ∙ rw (le→leb _ _ fits)

  -- A session that is due within the pin threshold is on the GPU tier with all its tokens after
  -- `store`, if it fits there beside the other sessions. This is for the adaptive policy on a
  -- consistent replica on which every other GPU resident has a predicted idle time within the pin
  -- threshold.
  pub store-pins :
      predicted_return_ms - now_ms ≤ config.pin_threshold_ms
      → gpu_others + tokens ≤ r.hw.gpu_cache_tokens
      → lookup_session after session_id ≡ (CacheTier.gpu, tokens)
  unfolding lookup_session install
  store-pins kept room = ground (
    arith,
    ap (λ (q : Replica). lookup session_id q.gpu) (store-eq_install kept room),
    lookup-insert session_id session_id entry r.gpu,
    eq_iff session_id session_id,
  )
