-- ===== src/Tests.antt =====
-- Runs of the code on small inputs, by the part of the code.
mod Caches
mod Routing
mod Learning
mod Serving
mod Outages
mod Settings
mod Replay
mod LiveReplay
mod Streaming
mod Traces
mod Interleaving
mod Scripts
pub mod Data
