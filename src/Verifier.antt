-- ===== src/Verifier.antt =====
-- scanner/verifier: which candidate interactions are real flash loans.
pub mod Convert
pub mod Logs
pub mod TracePath
pub mod Amounts
pub mod Aave
pub mod Balancer
pub mod Uniswap
pub mod Consistent
pub mod Traced
mod Samples
mod Examples
