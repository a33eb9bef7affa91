-- ===== src/Extractor.antt =====
-- scanner/extractor: which calls of an official contract are candidates for flash loans.
pub mod Aave
pub mod Shared
pub mod Uniswap
pub mod Balancer
mod Examples
