-- ===== src/Backends/Vllm.antt =====
-- agentserve/backends/vllm.py: the adapter for real workers. The HTTP client is a
-- parameter: what a post to a worker's URL gives at each attempt, and how a response is decoded.
pub mod Order
pub mod Failover
pub mod Streaming
pub mod Wires
pub mod Stores
use agentserve.Common.Text.{rstrip_by}
use agentserve.Common.{
  map, ℕ, zero, suc, ◌+◌, ◌-◌, ◌%◌, ltb, ◌==◌, String, Bool, true, false, not, Option, none, some,
  List, [], ◌∷◌, ◌++◌, length, take, get_elem?, if◌then◌else◌,
}
use agentserve.Models.{CacheTier, RequestResult}
use agentserve.Replica.{Replica, store}
use agentserve.Result.{
  Result, ok, raise, value_error, index_error, zero_division_error, runtime_error,
}

pub record VllmBackend : Type 0 where
  pub endpoints : List String
  pub model : String
  pub max_retries : ℕ
  pub failovers : ℕ

unfoldable pub init : List String → String → ℕ → Result VllmBackend
unfolding rstrip_by
init [] model max_retries = raise value_error
init (e ∷ es) model max_retries = ok (record {
  endpoints = map (rstrip_by (λ c. c == b'/')) (e ∷ es);
  model = model;
  max_retries = max_retries;
  failovers = 0;
})

-- The endpoint in `_url`, to which the code appends the path of the chat API.
unfoldable pub endpoint_of : VllmBackend → ℕ → Result String
endpoint_of b replica_id =
    if length b.endpoints == 0
    then raise zero_division_error
    else elim (get_elem? b.endpoints (replica_id % length b.endpoints)) [
      | none ↦ raise index_error
      | some e ↦ ok e
    ]

-- `[i for i in range(n) if i != id]`
unfoldable pub all_but : ℕ → ℕ → List ℕ
all_but id zero = []
all_but id (suc n) = let rest = all_but id n in rest ++ (if n == id then [] else n ∷ [])

unfoldable pub fallbacks : VllmBackend → ℕ → List ℕ
unfolding all_but
fallbacks b id = take (suc b.max_retries) (id ∷ all_but id (length b.endpoints))

-- What the code reads of a decoded answer. A missing number is `none`.
pub record Reply : Type 0 where
  pub prompt_tokens : Option ℕ
  pub completion_tokens : Option ℕ
  pub cached_tokens : Option ℕ
  pub content : String

-- `usage.get(key, fallback) or fallback`: 0 counts as missing.
abbrev pub or_else : Option ℕ → ℕ → ℕ
or_else none fallback = fallback
or_else (some n) fallback = if n == 0 then fallback else n

-- `_result`: the usage that the worker reports, kept on the scheduled replica.
unfoldable pub result_of :
    Replica
    → String
    → Reply
    → (fallback_prompt fallback_completion : ℕ)
    → (elapsed_ms ttft_ms now_ms predicted_return_ms : ℕ) → Replica × RequestResult
result_of replica session_id usage fallback_prompt fallback_completion elapsed_ms ttft_ms now_ms
      predicted_return_ms =
    let cached = or_else usage.cached_tokens 0 in
    let prompt = or_else usage.prompt_tokens fallback_prompt in
    let completion = or_else usage.completion_tokens fallback_completion in
    (
      store replica session_id (prompt + completion) (now_ms + elapsed_ms) predicted_return_ms,
      record {
        session_id = session_id;
        replica_id = replica.id;
        tier = if ltb 0 cached then CacheTier.gpu else CacheTier.miss;
        reused_tokens = cached;
        computed_tokens = prompt - cached;
        prefill_ms = ttft_ms;
        decode_ms = elapsed_ms - ttft_ms;
        queue_ms = 0;
        restore_ms = 0;
        text = usage.content;
        completion_tokens = completion;
      },
    )

-- The client: the response and the time that an attempt takes, or the exception that the post or
-- `raise_for_status` raises, and the decoding of a response, which may raise too.
pub record Client : Type 1 where
  pub Response : Type 0
  pub post : (attempt : ℕ) → String → Result (Response × ℕ)
  pub decode : Response → Result Reply

module _ (client : Client) where
  open client use {Response, post, decode}

  -- The body of the loop up to the test for an exception.
  unfoldable pub try_worker : VllmBackend → ℕ → ℕ → Result (Response × ℕ)
  unfolding endpoint_of
  try_worker b attempt target = elim (endpoint_of b target) [
    | raise e ↦ raise e
    | ok url ↦ post attempt url
  ]

  -- The lines of the loop behind a successful post.
  unfoldable pub finish :
      VllmBackend
      → Replica
      → String
      → (prompt_tokens output_tokens now_ms predicted_return_ms : ℕ) → ℕ
      → Response × ℕ
      → VllmBackend × Replica × Result RequestResult
  unfolding result_of
  finish b replica session_id prompt_tokens output_tokens now_ms predicted_return_ms attempt
        (response, elapsed_ms) =
      let b' = (if attempt == 0 then b else record b { failovers = b.failovers + 1 }) in
      elim (decode response) [
        | raise e ↦ (b', replica, raise e)
        | ok usage ↦
            let (replica', result) =
              result_of replica session_id usage prompt_tokens output_tokens elapsed_ms elapsed_ms
                now_ms predicted_return_ms in
            (b', replica', ok result)
      ]

  -- The loop of `aexecute` over the workers that are left.
  unfoldable pub attempts :
      VllmBackend
      → Replica
      → String
      → (prompt_tokens output_tokens now_ms predicted_return_ms : ℕ) → ℕ
      → List ℕ
      → VllmBackend × Replica × Result RequestResult
  unfolding try_worker finish
  attempts b replica sid prompt output now_ms predicted attempt [] =
      (b, replica, raise runtime_error)
  attempts b replica sid prompt output now_ms predicted attempt (target ∷ targets) =
      elim (try_worker b attempt target) [
        | raise e ↦ attempts b replica sid prompt output now_ms predicted (attempt + 1) targets
        | ok answer ↦ finish b replica sid prompt output now_ms predicted attempt answer
      ]

  unfoldable pub aexecute :
      VllmBackend
      → Replica
      → String
      → (prompt_tokens output_tokens now_ms predicted_return_ms : ℕ)
      → VllmBackend × Replica × Result RequestResult
  unfolding attempts fallbacks
  aexecute b replica session_id prompt_tokens output_tokens now_ms predicted_return_ms =
      attempts b replica session_id prompt_tokens output_tokens now_ms predicted_return_ms 0
        (fallbacks b replica.id)
