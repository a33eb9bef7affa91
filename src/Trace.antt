-- ===== src/Trace.antt =====
-- scanner/trace: the tree of calls that a transaction made, and the providers that fetch it.
pub mod Frames
pub mod Providers
mod Examples
