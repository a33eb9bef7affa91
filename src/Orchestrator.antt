-- ===== src/Orchestrator.antt =====
-- scanner/orchestrator: protocol_runner.go and observer.go. A run over a range of blocks, and the loop
-- that follows the chain.
pub mod Events
pub mod Runner
pub mod Loop
pub mod Samples
mod Examples
