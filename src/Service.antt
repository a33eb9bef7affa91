-- ===== src/Service.antt =====
-- api/service: the scan jobs behind the API.
pub mod Jobs
pub mod Details
pub mod Summary
pub mod Flows
pub mod Response
pub mod Conclusion
pub mod Reports
pub mod Query
mod Examples
