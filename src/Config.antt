-- ===== src/Config.antt =====
-- internal/config: the vector configuration generated from pipelines.
pub mod Types
pub mod Names
pub mod Secrets
pub mod Roles
pub mod Optimize
pub mod Build
pub mod Agent
pub mod ServicePorts
pub mod Aggregator
