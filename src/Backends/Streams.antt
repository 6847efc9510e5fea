-- ===== src/Backends/Streams.antt =====
-- agentserve/backends/base.py and agentserve/gateway.py: what a backend's stream gives the gateway.
use agentserve.Common.{ℕ, String, Option, List}
use agentserve.Models.{RequestResult}
use agentserve.Replica.{Replica}
use agentserve.Result.{Result}

-- What `astream` yields: the texts, and then the result, nothing more, or an exception.
pub record Stream : Type 0 where
  pub texts : List String
  pub outcome : Result (Option RequestResult)

abbrev pub Streamer : Type 0
Streamer =
    Replica
    → String
    → (prompt_tokens output_tokens now_ms predicted_return_ms : ℕ) → Replica × Stream
