-- ===== src/Tests/Interleaving.antt =====
-- agentserve/gateway.py over agentserve/backends/vllm.py: two requests that interleave. One is answered
-- behind a failover, and the client of the other leaves its stream.
use agentserve.App
use agentserve.App.Interleaving.{HealthyAfter, create_app-Healthy}
use agentserve.App.{
  App, fresh_replicas, assemble, over_memory, over_store, build_backend, create_app,
}
use agentserve.Backends.Vllm
use agentserve.Common.Text.{rstrip_by}
use agentserve.Settings.{Settings, default_settings, vllm_workers}
use agentserve.State.Redis.{build_session_store}
use agentserve.Tests.Outages.{no_server}
use agentserve.Common.Positions.{AllAt}
use agentserve.Common.{ℕ, ◌≡◌, refl, none, some, true, false, List, [], ◌∷◌, All, length}
use agentserve.Gateway.Interleaved.Caches.{Wiring}
use agentserve.Gateway.Interleaved.Counts.{IsFresh, started, interleave-CountsSlots}
use agentserve.Gateway.Interleaved.Drained.{finish_all}
use agentserve.Gateway.Interleaved.Ends.{HasEnded, interleave_drains}
use agentserve.Gateway.Interleaved.{
  LoopEvent, arrive, resume, enter, work, leave, cancel, interleave, open_requests,
}
use agentserve.Gateway.Slots.{HasNoOpenSlot}
use agentserve.Gateway.Streams.{whole}
use agentserve.Gateway.{Worker, stream_of, as_stream}
use agentserve.Replica.Slots.{CountsSlots}
use agentserve.Replica.{init}
use agentserve.State.Memory
use agentserve.Result.{ok, raise, client_error}
use agentserve.State.Memory.{memory_store, get}
use agentserve.Tests.Serving.{fresh_gateway, refuses_first, question}
use agentserve.Tests.Streaming.{loads, wire}

abbrev wirings : ℕ → Wiring
wirings k = record { client = refuses_first; connect = λ url. ok wire }

-- Both enter before the first is answered.
abbrev events : List LoopEvent
events =
    arrive 5 6 30 "a" (some "grep") (question ∷ []) 20 false
    ∷ arrive 7 8 40 "b" none (question ∷ []) 30 true
    ∷ resume 1 enter 8
    ∷ resume 0 enter 8
    ∷ resume 0 (work 0) 9
    ∷ resume 1 cancel 9
    ∷ resume 0 leave 9
    ∷ []

fresh : AllAt IsFresh 0 fresh_gateway.replicas
unfolding fresh_replicas init
fresh = ((refl, refl), ((refl, refl), tt))

numbered : AllAt (λ i r. r.id ≡ i) 0 fresh_gateway.replicas
unfolding fresh_replicas init
numbered = (refl, (refl, tt))

-- Two real workers, without a Redis server.
abbrev real_settings : Settings
real_settings = record default_settings {
  backend = vllm_workers;
  vllm_endpoints = "u" ∷ "v" ∷ [];
  cluster = record default_settings.cluster { replicas = 2 };
}

abbrev app : App ℕ
app = record {
  gateway = over_memory (assemble real_settings (Memory.init 100_000 3_600_000_000));
  backend = App.workers (record {
    endpoints = "u" ∷ "v" ∷ [];
    model = default_settings.vllm_model;
    max_retries = 2;
    failovers = 0;
  });
  api_key = none;
}

app_created : create_app no_server real_settings ≡ ok app
unfolding create_app over_store build_backend build_session_store Vllm.init rstrip_by
app_created = refl

create_app-Healthy_example :
    HealthyAfter none loads wirings events no_server app.backend app.gateway
create_app-Healthy_example =
    create_app-Healthy none loads wirings events no_server real_settings app app_created

-- A backend that fails each call.
abbrev failing : ℕ → Worker
failing k = whole (λ r sid prompt output now_ms back_ms. (r, raise client_error))

interleave-CountsSlots_example :
    let loop = interleave failing memory_store none (started fresh_gateway) events in
    AllAt (λ i r. (r.id ≡ i) × CountsSlots r (open_requests i loop.jobs)) 0 loop.gateway.replicas
interleave-CountsSlots_example =
    interleave-CountsSlots memory_store none failing
      (λ k r sid prompt output now_ms back_ms. (refl, refl, refl))
      (λ k r sid prompt output now_ms back_ms. unfold stream_of as_stream in (refl, refl, refl))
      fresh_gateway events fresh

interleave_drains_example :
    let loop = interleave failing memory_store none (started fresh_gateway) events in
    let after = interleave failing memory_store none loop (finish_all 9 (length loop.jobs)) in
    (length after.jobs ≡ length loop.jobs)
    × All HasEnded after.jobs
    × All HasNoOpenSlot after.gateway.replicas
interleave_drains_example =
    interleave_drains memory_store none failing
      (λ k r sid prompt output now_ms back_ms. (refl, refl, refl))
      (λ k r sid prompt output now_ms back_ms. unfold stream_of as_stream in (refl, refl, refl))
      fresh_gateway events 9 fresh
