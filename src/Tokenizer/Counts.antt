-- ===== src/Tokenizer/Counts.antt =====
-- agentserve/tokenizer.py: the counts of a transcript and of its continuations.
use agentserve.Common.{ℕ, ◌+◌, ◌*◌, ◌≤◌, ◌≡◌, arith, String, Option, List, [], ◌∷◌, ◌++◌, length}
use agentserve.Tokenizer.{Message, total_of, count_messages}

module _ (encoder : Option (String → ℕ)) where
  total_of-append :
      (ms ns : List Message)
      → total_of encoder (ms ++ ns) ≡ total_of encoder ms + total_of encoder ns
  unfolding total_of
  total_of-append [] ns = omega arith
  total_of-append (m ∷ ms) ns = omega (arith, total_of-append ms ns)

  total_of-ge : (ms : List Message) → 4 * length ms ≤ total_of encoder ms
  unfolding total_of
  total_of-ge [] = omega arith
  total_of-ge (m ∷ ms) = omega (arith, total_of-ge ms)

  -- A prompt counts at least one token and at least four for each message, and a transcript with a
  -- message that is continued counts at least four tokens more for each further message.
  pub count_messages_grows :
      (ms ns : List Message)
      → (1 ≤ count_messages encoder ms)
        × (4 * length ms ≤ count_messages encoder ms)
        × (1 ≤ length ms
            → count_messages encoder ms + 4 * length ns ≤ count_messages encoder (ms ++ ns))
  unfolding count_messages
  count_messages_grows ms ns = (
    omega arith,
    omega (arith, total_of-ge ms),
    λ h. omega (arith, total_of-append ms ns, total_of-ge ms, total_of-ge ns),
  )
