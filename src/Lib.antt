-- ===== src/Lib.antt =====
-- AgentServe: a gateway that routes the calls of agent sessions to replicas of a model server, so that
-- a session comes back to the replica that holds its cache, and that decides for each cache whether it
-- stays on the GPU, moves to host DRAM, or is dropped.
--
-- How the parts interact. The gateway's `schedule` drops finished calls from each replica's queue,
-- lets the predictor observe the gap since the session was last seen in the session store, asks the
-- router for a replica, and asks the predictor for the gap that follows. The backend then serves the
-- call within a slot of the replica, and stores the session's cache there by the replica's policy.
--
-- What models what:
--   Config, Models: agentserve/config.py and agentserve/models.py, a record for each dataclass.
--   Predictor: `ToolDurationPredictor` of agentserve/predictor.py. Range is about its averages, Reads
--     about what a read changes and which average it reads, and Answers about when there is one.
--   Policy: agentserve/policy.py. The protocol is a record whose law says that a policy only permutes
--     the entries. Placements and Order are about the two decisions.
--   Replica: agentserve/replica.py. Entries and Steps hold the invariant of the two dictionaries and
--     each single change, Shedding and Evictions are about `_enforce_capacity`, Storing and
--     Residence about `store`, and Slots about `slot` under any interleaving of requests.
--   State: the protocol of agentserve/state.py, a record of operations over the state of a store.
--     State.Memory is `InMemorySessionStore`; Tables is about one table, Laws about the store.
--     State.Redis is `RedisSessionStore` and `build_session_store`, and Outage is about a server that
--     is unreachable.
--   Router: both routers of agentserve/router.py, over any session store. Balance is about
--     `_least_loaded`, Rotation about the round-robin router, Affinity about `select` over the
--     in-memory store, Unreachable about `select` over the Redis store, and Members is about properties
--     that all replicas of a cluster share. Router.Choice is one of the two routers.
--   Backends.Simulated, Backends.Vllm: agentserve/backends/simulated.py and agentserve/backends/vllm.py.
--     Order and Failover are about `aexecute`, Streaming is `astream` and `aprobe`, and Wires is about
--     what a stream makes of its lines.
--   Tokenizer: agentserve/tokenizer.py. Metrics: the counters of agentserve/metrics.py that requests
--     change.
--   Gateway: `schedule`, `record`, `chat_completions` and `stream_response` of agentserve/gateway.py.
--     Workers is a backend within a slot and the events of a stream. Scheduling is about `schedule`,
--     and Serving about when it gives a replica. Requests carries a property of replicas through a
--     request, Capacity and Slots apply it, Streams is about both kinds of answers, and Answers about
--     when a request is answered with a completion, and Replies about any request.
--     Gateway.Interleaved cuts requests where another may run, and runs any sequence of their turns:
--     Invariants carries a property of the replicas, relative to the number
--     of open requests, through it, Counts and Caches apply it, to any backend and to the two of the code,
--     Turns and Alone are about a request that nothing interrupts, and Drained and Ends are about the ends of all
--     requests.
--   Settings: agentserve/settings.py. Values is its data, and Validity is about what `load_settings` lets through.
--   App: `create_app` and `build_backend` of agentserve/gateway.py. Serving takes accepted settings to
--     the answers of the app. Endpoints is the key guard and the pages, and Readiness is about `/ready`,
--     and Interleaving about the requests of an app that interleave.
--   Replay: bench/replay.py. Results is the report of an arm and Percentiles is about it, Queue is the
--     queue and Events is about it, Turns is about one turn, Counters and Rounds
--     about one round of the loop, Runs about the loop, and Arms about both arms.
--   LiveReplay: bench/live_replay.py, from the prompts to the report of one run. Prompts is about how
--     prompts grow, and Reports about what is counted.
--   Traces: `generate_trace` of bench/traces.py, and Summaries is `trace_summary`. Shape is about every
--     trace, and Summarised about its summary.
--   MockVllm: scripts/mock_vllm.py. Cache is about its prefix cache, Sessions about growing sessions, and
--     Wires puts the adapter behind it.
--   GpuValidate: the placement and the environments of scripts/gpu_validate.py. Placements is about the
--     GPUs, Lists about `_csv` on joined texts, Endpoints about what the script prints for it, and
--     Environs takes an environment through `load_settings`.
--   BenchRun: bench/run.py, from the seeds to the means, and Totals is about its end.
--   Common: Python's dictionaries, `sorted` and `min`, and what the parts share. Result: exceptions
--     as values, and what a call establishes unless it raises (Ensures), or without raising
--     (Produces).
--
-- How the code's state and operations become definitions. A class is a record, and a method that
-- changes `self` returns the changed record. A dictionary is an association list in insertion order.
-- A cache entry is a value: the code shares entries, but changes one only right after taking it out
-- of a dictionary. The replicas of a cluster stand in a list at the places of their numbers. Each
-- reading of the clock is an argument.
--
-- Numbers. A time or duration is a natural number of ticks, a thousandth of a millisecond, so that
-- every default cost per token is whole; `ewma_alpha` is a number of thousandths. The settings that
-- `load_settings` returns hold floats: numbers of thousandths, the infinities, or nan. `create_app` is
-- modelled for those that are finite. The code computes with floats: the averages of the predictor are
-- rounded down to a tick here, and all else is exact.
-- `max(0, a - b)` is the subtraction that stops at 0. A quotient is kept as a fraction, and compared by
-- products.
--
-- Loops. The loop of `_trim_dram` runs on fuel, the number of entries of the DRAM tier, which is enough
-- because each round removes one. The loop of `run_arm` runs on the number of turns of all traces,
-- which is enough because each round serves one. A number is printed with one more unit of fuel than
-- itself, and has fewer digits. All other loops run over a list.
--
-- Parameters. What Python's `int` and `float` make of a variable of the environment and of a text that
-- redis returns, the client of redis, the encoder of tiktoken, the HTTP clients of the vLLM adapter and
-- of the live replay, what JSON says of a line and how it writes one, what the seeded generator of the
-- traces draws, and for the gateway the session store and the backend. Under an interleaving the
-- backend may act otherwise at each call.
--
-- Not modelled: the text of `/metrics`, which a library renders; logging, the closing of clients and the
-- pauses between attempts; the printing, the command lines, the semaphore and the pauses of the
-- benchmarks, and the spread over the seeds; the processes and the polling of scripts/gpu_validate.py
-- and scripts/integration_check.py; and what stands under notebooks and deploy, which calls or
-- configures the rest. A `max_tokens` that is no natural number, and a body that is no object, stand
-- outside of the requests here. The requests that interleave are those behind the checks of the
-- headers and the body, which change nothing.
pub mod Common
pub mod Result
pub mod Config
pub mod Models
pub mod Settings
pub mod Predictor
pub mod Policy
pub mod Replica
pub mod State
pub mod Router
pub mod Backends
pub mod BenchRun
pub mod Tokenizer
pub mod Metrics
pub mod MockVllm
pub mod Gateway
pub mod App
pub mod Replay
pub mod GpuValidate
pub mod LiveReplay
pub mod Traces
mod Tests
