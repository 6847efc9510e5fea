-- ===== src/Backends/Vllm/Failover.antt =====
-- agentserve/backends/vllm.py: which worker answers, and what a failure leaves unchanged.
use agentserve.Backends.Vllm.{
  VllmBackend, fallbacks, Client, try_worker, finish, attempts, aexecute,
}
use agentserve.Common.{
  ℕ, suc, ◌+◌, ◌≡◌, ◌∙◌, ap, arith, String, List, [], ◌∷◌, ◌++◌, length, ◌==◌, sym, if◌then◌else◌,
}
use agentserve.Replica.{Replica}
use agentserve.Result.{ok, raise, runtime_error, Exception}
use mathlib.Core.List.{append-nil}
use native.Mathlib.Nat.{add-zero}

module _ (client : Client) (b : VllmBackend) where
  -- Each worker in a row of attempts fails, the first attempt having the given number.
  abbrev pub AllFail : ℕ → List ℕ → Type 0
  AllFail attempt [] = Unit
  AllFail attempt (target ∷ targets) =
      ((e : Exception) × (try_worker client b attempt target ≡ raise e))
      × AllFail (attempt + 1) targets

  module _ (r : Replica) (session_id : String)
      (prompt_tokens output_tokens now_ms predicted_return_ms : ℕ) where
    attempts_after :
        (attempt : ℕ) (before after : List ℕ)
        → AllFail attempt before
        → attempts client b r session_id prompt_tokens output_tokens now_ms predicted_return_ms
            attempt
            (before ++ after)
          ≡ attempts client b r session_id prompt_tokens output_tokens now_ms predicted_return_ms
              (attempt + length before)
              after
    unfolding attempts
    attempts_after attempt [] after h = rw add-zero
    attempts_after attempt (t ∷ before) after h =
        let same : attempt + 1 + length before ≡ attempt + suc (length before) = omega arith in
        let failed = h.0.1 in
        rw (failed, attempts)
          (attempts_after (attempt + 1) before after h.1
            ∙ ap
                (λ (n : ℕ).
                  attempts client b r session_id prompt_tokens output_tokens now_ms
                    predicted_return_ms n after)
                same)

    -- If no worker of the order answers, the call raises, and neither the replica nor the backend
    -- changes.
    pub aexecute-AllFail :
        AllFail 0 (fallbacks b r.id)
        → aexecute client b r session_id prompt_tokens output_tokens now_ms predicted_return_ms
          ≡ (b, r, raise runtime_error)
    unfolding aexecute
    aexecute-AllFail h =
        ap (attempts client b r session_id prompt_tokens output_tokens now_ms predicted_return_ms 0)
          (sym (append-nil (fallbacks b r.id)))
        ∙ attempts_after 0 (fallbacks b r.id) [] h

    attempts_answered :
        (attempt target : ℕ) (after : List ℕ) (answer : client.Response × ℕ)
        → try_worker client b attempt target ≡ ok answer
        → attempts client b r session_id prompt_tokens output_tokens now_ms predicted_return_ms
            attempt
            (target ∷ after)
          ≡ finish client b r session_id prompt_tokens output_tokens now_ms predicted_return_ms
              attempt answer
    unfolding attempts
    attempts_answered attempt target after answer answered = rw (answered, attempts)

    aexecute_served :
        (before after : List ℕ) (target : ℕ) (answer : client.Response × ℕ)
        → fallbacks b r.id ≡ before ++ target ∷ after
        → AllFail 0 before
        → try_worker client b (length before) target ≡ ok answer
        → aexecute client b r session_id prompt_tokens output_tokens now_ms predicted_return_ms
          ≡ finish client b r session_id prompt_tokens output_tokens now_ms predicted_return_ms
              (length before)
              answer
    unfolding aexecute
    aexecute_served before after target answer order failed answered =
        let first : 0 + length before ≡ length before = omega arith in
        let run =
          attempts client b r session_id prompt_tokens output_tokens now_ms predicted_return_ms in
        ap (run 0) order
        ∙ attempts_after 0 before (target ∷ after) failed
        ∙ ap (λ (n : ℕ). run n (target ∷ after)) first
        ∙ attempts_answered (length before) target after answer answered

    finish-failovers :
        (attempt : ℕ) (answer : client.Response × ℕ)
        → (finish client b r session_id prompt_tokens output_tokens now_ms predicted_return_ms
            attempt answer).0.failovers
          ≡ b.failovers + (if attempt == 0 then 0 else 1)
    unfolding finish
    finish-failovers attempt (response, elapsed) = ground arith

    -- If the workers before one in the order fail and that one answers, its answer is what the
    -- call returns, and the call is counted as one failover if and only if some worker failed
    -- before.
    pub aexecute_first_answer :
        (before after : List ℕ) (target : ℕ) (answer : client.Response × ℕ)
        → fallbacks b r.id ≡ before ++ target ∷ after
        → AllFail 0 before
        → try_worker client b (length before) target ≡ ok answer
        → (aexecute client b r session_id prompt_tokens output_tokens now_ms predicted_return_ms
            ≡ finish client b r session_id prompt_tokens output_tokens now_ms predicted_return_ms
                (length before)
                answer)
          × ((aexecute client b r session_id prompt_tokens output_tokens now_ms
                predicted_return_ms).0.failovers
              ≡ b.failovers + (if length before == 0 then 0 else 1))
    aexecute_first_answer before after target answer order failed answered =
        let served = aexecute_served before after target answer order failed answered in
        (served, ap (λ s. s.0.failovers) served ∙ finish-failovers (length before) answer)
