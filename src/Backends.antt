-- ===== src/Backends.antt =====
-- agentserve/backends/.
pub mod Simulated
pub mod Streams
pub mod Vllm
