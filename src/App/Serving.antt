-- ===== src/App/Serving.antt =====
-- agentserve/settings.py and agentserve/gateway.py: the app that accepted settings give.
use agentserve.App.{
  fresh_replicas, chosen_policy, assemble, simulator, build_backend, over_memory, over_store,
  create_app,
}
use agentserve.Common.Dict.{values}
use agentserve.Common.{
  ℕ, zero, suc, ◌+◌, ◌*◌, ◌≤◌, ◌≡◌, refl, arith, String, Option, none, List, [], ◌∷◌, All, length,
  true, false, Bool-cases, inl, inr, ◌⊎◌,
}
use agentserve.Config.{HardwareProfile}
use agentserve.App.Endpoints.{require_api_key, post_completions}
use agentserve.Common.Float.{Float}
use agentserve.Common.Int.{ℤ}
use agentserve.Gateway.Replies.{Replies, chat_completions-Replies}
use agentserve.Gateway.Capacity.{simulated}
use agentserve.Gateway.Streams.{whole}
use agentserve.Gateway.Serving.{Works, IsServing}
use agentserve.Gateway.{Gateway, Request, Response, http_error}
use agentserve.Policy.{CachePolicy}
use agentserve.Predictor
use agentserve.Replica
use agentserve.Replica.Storing.{IsBounded}
use agentserve.Replica.{Replica, gpu_tokens, dram_tokens}
use agentserve.Result.{ok}
use agentserve.Settings.Validity.{IsSound, load_settings-IsAccepted, IsSound-loaded}
use agentserve.Settings.{Cast, Environ, Settings, simulated_workers, load_settings, loaded}
use agentserve.State.Memory
use agentserve.State.Memory.{InMemorySessionStore, memory_store}
use agentserve.State.Redis.{RedisClient, build_session_store}

pub init-IsBounded :
    (i : ℕ) (hw : HardwareProfile) (policy : CachePolicy) → IsBounded (Replica.init i hw policy)
unfolding Replica.init gpu_tokens dram_tokens values
init-IsBounded i hw policy = record {
  consistent = record {
    gpu_distinct = tt;
    dram_distinct = tt;
    gpu_keyed = tt;
    dram_keyed = tt;
    disjoint = tt;
    dram_bounded = omega arith;
  };
  gpu_bounded = omega arith;
}

module _ (hw : HardwareProfile) (policy : CachePolicy) (some_cache : 1 ≤ hw.gpu_cache_tokens) where
  pub fresh_replicas-Works : (first n : ℕ) → All Works (fresh_replicas hw policy first n)
  unfolding fresh_replicas Replica.init
  fresh_replicas-Works first zero = tt
  fresh_replicas-Works first (suc n) =
      ((init-IsBounded first hw policy, omega arith), fresh_replicas-Works (first + 1) n)

  pub length-fresh_replicas : (first n : ℕ) → length (fresh_replicas hw policy first n) ≡ n
  unfolding fresh_replicas
  length-fresh_replicas first zero = refl
  length-fresh_replicas first (suc n) = omega (arith, length-fresh_replicas (first + 1) n)

assemble-IsServing :
    (s : Settings) (store : InMemorySessionStore) → IsSound s → IsServing (assemble s store)
unfolding assemble Predictor.init
assemble-IsServing s store sound =
    let hw = s.cluster.hardware in
    let policy = chosen_policy s in
    record {
      some_replica = omega (
        arith,
        sound.replicas,
        length-fresh_replicas hw policy sound.gpu_cache 0 s.cluster.replicas,
      );
      work = fresh_replicas-Works hw policy sound.gpu_cache 0 s.cluster.replicas;
      predicts = record { positive = sound.observations; counted = tt };
    }

-- A request to the completions, with its header and the times that the gateway and the store read.
pub record Call : Type 0 where
  pub authorization : Option String
  pub request : Request
  pub now_ms : ℕ
  pub read_at : ℕ
  pub write_at : ℕ

-- The answer to a call: a 401 without the key, and else what its request is to be answered with.
abbrev pub IsAnswer : (api_key : Option String) → Call → Response → Type 0
IsAnswer api_key c answer =
    ((require_api_key api_key c.authorization ≡ true) × Replies c.request answer)
    ⊎ ((require_api_key api_key c.authorization ≡ false) × (answer ≡ http_error 401))

-- One answer to each call.
abbrev pub AllAnswered : (api_key : Option String) → List Call → List Response → Type 0
AllAnswered api_key [] [] = Unit
AllAnswered api_key (c ∷ calls) (answer ∷ answers) =
    IsAnswer api_key c answer × AllAnswered api_key calls answers
AllAnswered api_key [] (answer ∷ answers) = ⊥
AllAnswered api_key (c ∷ calls) [] = ⊥

module _ (hw : HardwareProfile) (encoder : Option (String → ℕ)) (api_key : Option String) where
  -- The gateway behind one call, and its answer.
  abbrev post : Gateway InMemorySessionStore → Call → Gateway InMemorySessionStore × Response
  post g c =
      post_completions memory_store (whole (simulated hw)) encoder api_key c.authorization g
        c.read_at c.write_at c.now_ms c.request

  -- The answers to calls in a row.
  unfoldable pub post_all : Gateway InMemorySessionStore → List Call → List Response
  unfolding post_completions
  post_all g [] = []
  post_all g (c ∷ calls) = let (g', answer) = post g c in answer ∷ post_all g' calls

  post-IsAnswer :
      (g : Gateway InMemorySessionStore) (c : Call)
      → IsServing g
      → IsServing (post g c).0 × IsAnswer api_key c (post g c).1
  unfolding post_completions
  post-IsAnswer g c h = elim (Bool-cases (require_api_key api_key c.authorization)) [
    | inl let_in ↦
        let (serving, replies) =
          chat_completions-Replies hw encoder g c.read_at c.write_at c.now_ms c.request h in
        rw let_in (serving, inl (refl, replies))
    | inr kept_out ↦ rw kept_out (h, inr (refl, refl))
  ]

  post_all-AllAnswered :
      (g : Gateway InMemorySessionStore) (calls : List Call)
      → IsServing g
      → AllAnswered api_key calls (post_all g calls)
  unfolding post_all
  post_all-AllAnswered g [] h = tt
  post_all-AllAnswered g (c ∷ calls) h =
      let (serving, answered) = post-IsAnswer g c h in
      (answered, post_all-AllAnswered (post g c).0 calls serving)

-- If `load_settings` accepts the environment, with finite floats, the simulated backend and no
-- Redis server, then `create_app` gives an app that answers each call of any sequence, whatever
-- the clocks read: with a 401 if a key is set and the header of the call does not carry it, and
-- else with a completion or the whole stream of one if the request names a session in 1 to 256
-- characters and has a body with at least one message, and with a 400 if it does not.
pub app_answers :
    (int_of : Cast ℤ) (float_of : Cast Float) (environ : Environ) (s : Settings) {C : Type 0}
    (redis : RedisClient C) (encoder : Option (String → ℕ)) (calls : List Call)
    → load_settings int_of float_of environ ≡ ok (loaded s)
    → s.backend ≡ simulated_workers
    → s.redis_url ≡ none
    → (g : Gateway InMemorySessionStore) × (create_app redis s
        ≡ ok (record {
          gateway = over_memory g;
          backend = simulator s.cluster.hardware;
          api_key = s.api_key;
        }))
      × AllAnswered s.api_key calls (post_all s.cluster.hardware encoder s.api_key g calls)
unfolding create_app over_store build_backend build_session_store
app_answers int_of float_of environ s redis encoder calls accepted simulates local =
    let g = assemble s (Memory.init s.max_sessions (s.session_ttl_s * 1_000)) in
    let sound =
      IsSound-loaded s (load_settings-IsAccepted int_of float_of environ (loaded s) accepted) in
    let serving =
      assemble-IsServing s (Memory.init s.max_sessions (s.session_ttl_s * 1_000)) sound in
    (
      g,
      rw (local, build_session_store, simulates),
      post_all-AllAnswered s.cluster.hardware encoder s.api_key g calls serving,
    )
