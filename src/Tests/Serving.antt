-- ===== src/Tests/Serving.antt =====
-- agentserve/gateway.py, agentserve/backends and agentserve/tokenizer.py on small requests.
use agentserve.Backends.Simulated.Costs.{execute-IsBounded}
use agentserve.Backends.Simulated.{execute}
use agentserve.Backends.Vllm.Failover.{aexecute-AllFail, aexecute_first_answer}
use agentserve.Backends.Vllm.Order.{Apart, fallbacks_lem}
use agentserve.Backends.Vllm.{
  VllmBackend, Client, endpoint_of, all_but, fallbacks, try_worker, finish, aexecute,
}
use agentserve.Common.Dict.{values}
use agentserve.Common.{
  true, false, ℕ, ◌≡◌, ◌<◌, ◌==◌, refl, arith, min, String, none, some, List, [], ◌∷◌, All, length,
  if◌then◌else◌,
}
use agentserve.Config.{default_policy, default_predictor}
use agentserve.App.Serving.{fresh_replicas-Works}
use agentserve.App.{fresh_replicas}
use agentserve.Gateway.Answers.{Completes, chat_completions_answers}
use agentserve.Gateway.Serving.{IsServing}
use agentserve.Policy.{adaptive_ttl_policy}
use agentserve.Gateway.Capacity.{simulated, chat_completions-IsBounded}
use agentserve.Gateway.Streams.{whole, Agree, asking, chat_completions_streams}
use agentserve.Gateway.{Gateway, Request, Body, chat_completions}
use agentserve.Predictor
use agentserve.Router.Choice.{affinity}
use agentserve.Replica.Storing.{IsBounded}
use agentserve.Replica.{gpu_tokens}
use agentserve.Result.{ok, raise, client_error, runtime_error}
use agentserve.State.Memory
use agentserve.Tests.Data.{small, busy, cluster, busy-IsConsistent, idle-IsConsistent}
use agentserve.Tokenizer.{Message, str}

cluster-IsBounded : All IsBounded cluster
unfolding gpu_tokens values
cluster-IsBounded = (
  record { consistent = busy-IsConsistent; gpu_bounded = omega arith },
  (record { consistent = idle-IsConsistent; gpu_bounded = omega arith }, tt),
)

abbrev gateway : Gateway Memory.InMemorySessionStore
gateway = record {
  replicas = cluster;
  router = affinity default_policy 0 0;
  predictor = Predictor.init default_predictor;
  store = Memory.init 10 3_600;
  metrics = record {
    affinity_decisions = 0;
    rebalanced_decisions = 0;
    requests = λ tier. 0;
    tokens_reused = 0;
    tokens_computed = 0;
    ttft = [];
    cache_actions = λ tier. 0;
  };
}

abbrev pub question : Message
question = ("role", str "user") ∷ ("content", str "which tests fail") ∷ []

abbrev pub asked : Body
asked = record { messages = some (question ∷ []); max_tokens = 20; wants_stream = false }

abbrev pub request : Request
request = record { session_id = some "a"; tool_name = some "grep"; body = some asked }

chat_completions-IsBounded_example :
    All IsBounded
      (chat_completions Memory.memory_store
        (whole (simulated small))
        none
        gateway
        5
        6
        30
        request).0.replicas
chat_completions-IsBounded_example =
    chat_completions-IsBounded Memory.memory_store small none gateway 5 6 30 request
      cluster-IsBounded

execute-IsBounded_example : IsBounded (execute small busy "c" 60 20 30 900).0
execute-IsBounded_example = execute-IsBounded small busy "c" 60 20 30 900 busy-IsConsistent

abbrev pub workers : VllmBackend
workers = record { endpoints = "u" ∷ "v" ∷ "w" ∷ []; model = "m"; max_retries = 1; failovers = 4 }

fallbacks_example :
    ((rest : List ℕ) × (fallbacks workers 2 ≡ 2 ∷ rest))
    × Apart (fallbacks workers 2)
    × All (λ i. i < 3) (fallbacks workers 2)
    × (length (fallbacks workers 2) ≡ min 2 3)
fallbacks_example = fallbacks_lem workers 2 (omega arith)

-- A client of workers that refuse the first call of each request.
abbrev pub refuses_first : Client
refuses_first = record {
  Response = String;
  post = λ attempt url. if attempt == 0 then raise client_error else ok (url, 12);
  decode = λ response. ok (record {
    prompt_tokens = some 8;
    completion_tokens = none;
    cached_tokens = none;
    content = response;
  });
}

abbrev refuses : Client
refuses = record refuses_first { post = λ attempt url. raise client_error }

aexecute-AllFail_example :
    aexecute refuses workers busy "a" 60 20 30 900 ≡ (workers, busy, raise runtime_error)
unfolding fallbacks try_worker endpoint_of all_but
aexecute-AllFail_example =
    aexecute-AllFail refuses workers busy "a" 60 20 30 900
      ((client_error, refl), ((client_error, refl), tt))

aexecute_first_answer_example :
    (aexecute refuses_first workers busy "a" 60 20 30 900
      ≡ finish refuses_first workers busy "a" 60 20 30 900 1 ("v", 12))
    × ((aexecute refuses_first workers busy "a" 60 20 30 900).0.failovers ≡ 5)
unfolding fallbacks try_worker endpoint_of all_but
aexecute_first_answer_example =
    aexecute_first_answer refuses_first workers busy "a" 60 20 30 900 (0 ∷ []) [] 1 ("v", 12) refl
      ((client_error, refl), tt) refl

-- A gateway over fresh replicas.
abbrev pub fresh_gateway : Gateway Memory.InMemorySessionStore
fresh_gateway = record gateway {
  replicas = fresh_replicas small (adaptive_ttl_policy default_policy) 0 2;
}

pub fresh_gateway-IsServing : IsServing fresh_gateway
unfolding fresh_replicas Predictor.init
fresh_gateway-IsServing = record {
  some_replica = omega arith;
  work = fresh_replicas-Works small (adaptive_ttl_policy default_policy) (omega arith) 0 2;
  predicts = record { positive = omega arith; counted = tt };
}

chat_completions_answers_example :
    IsServing
      (chat_completions Memory.memory_store
        (whole (simulated small))
        none
        fresh_gateway
        5
        6
        30
        request).0
    × Completes
        (chat_completions Memory.memory_store
          (whole (simulated small))
          none
          fresh_gateway
          5
          6
          30
          request).1
chat_completions_answers_example =
    chat_completions_answers small none fresh_gateway 5 6 30 request fresh_gateway-IsServing
      (_, _, _, _, refl, refl, omega arith, refl, refl)

chat_completions_streams_example :
    Agree
      (chat_completions Memory.memory_store
        (whole (simulated small))
        none
        gateway
        5
        6
        30
        (record request { body = some (asking false asked) }))
      (chat_completions Memory.memory_store
        (whole (simulated small))
        none
        gateway
        5
        6
        30
        (record request { body = some (asking true asked) }))
chat_completions_streams_example =
    chat_completions_streams Memory.memory_store (simulated small) none gateway 5 6 30 request asked
