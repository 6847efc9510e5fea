-- ===== src/MockVllm/Sessions.antt =====
-- scripts/mock_vllm.py under bench/live_replay.py: what the worker has cached of a growing session.
use agentserve.Common.Dict.Laws.{lookup-insert}
use agentserve.Common.Dict.{Dict, lookup}
use agentserve.Common.{
  ℕ, ◌≤◌, ◌≡◌, ap, ◌∙◌, arith, inl, inr, str_eq, eq_iff, String, some, List, [], ◌∷◌, Bool-cases,
}
use agentserve.LiveReplay.Prompts.{build_prompt-Begins}
use agentserve.LiveReplay.{build_prompt}
use agentserve.MockVllm.Cache.{
  IsPriced, starts_with-Begins, cached_from-finds, cached_from-le, account-IsPriced,
}
use agentserve.MockVllm.{prompt_of, account, account_all}

account-lookup :
    (k : String) (cache : Dict ℕ) (text : String)
    → lookup k cache ≡ some (prompt_of k)
    → lookup k (account cache text).0 ≡ some (prompt_of k)
unfolding account
account-lookup k cache text h =
    lookup-insert text k (prompt_of text) cache ∙ elim (Bool-cases (str_eq text k)) [
      | inl same ↦ rw same (
          ap (λ t. some (prompt_of t))
            (let e : text ≡ k = ground (arith, same, eq_iff text k) in e))
      | inr other ↦ rw other h
    ]

account_all-lookup :
    (k : String) (cache : Dict ℕ) (texts : List String)
    → lookup k cache ≡ some (prompt_of k)
    → lookup k (account_all cache texts) ≡ some (prompt_of k)
unfolding account_all
account_all-lookup k cache [] h = h
account_all-lookup k cache (text ∷ texts) h =
    account_all-lookup k (account cache text).0 texts (account-lookup k cache text h)

account_all-IsPriced :
    (cache : Dict ℕ) (texts : List String) → IsPriced cache → IsPriced (account_all cache texts)
unfolding account_all
account_all-IsPriced cache [] h = h
account_all-IsPriced cache (text ∷ texts) h =
    account_all-IsPriced (account cache text).0 texts (account-IsPriced cache text h)

-- Whatever prompts the mock worker has seen before and in between: for a prompt of a session that
-- is followed by one of the same session for as many tokens or more, the worker reports at least
-- the tokens of the first prompt as cached, and at most the tokens of the second.
pub session_reuses :
    (before between : List String) (session_id : String) (tokens more turn later : ℕ)
    → tokens ≤ more
    → let first = account (account_all [] before) (build_prompt tokens session_id turn) in
      let next = account (account_all first.0 between) (build_prompt more session_id later) in
      (first.1 ≤ next.2) × (next.2 ≤ next.1)
unfolding account
session_reuses before between sid tokens more turn later h =
    let shorter = build_prompt tokens sid turn in
    let longer = build_prompt more sid later in
    let first = account (account_all [] before) shorter in
    let cache = account_all first.0 between in
    (
      cached_from-finds longer shorter (prompt_of shorter) cache 0
          (account_all-lookup shorter first.0 between (
            unfold account in
            lookup-insert shorter shorter (prompt_of shorter) (account_all [] before)
            ∙ ground (arith, eq_iff shorter shorter)))
          (starts_with-Begins longer shorter (build_prompt-Begins sid tokens more turn later h)),
      cached_from-le longer cache 0
          (account_all-IsPriced first.0 between
            (account-IsPriced (account_all [] before) shorter (account_all-IsPriced [] before tt)))
          (unfold prompt_of in omega arith),
    )
