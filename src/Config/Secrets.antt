-- ===== src/Config/Secrets.antt =====
-- internal/config/secrets.go: the SECRET[] references of pipelines.
pub mod Types
pub mod Scan
pub mod Process
pub mod Safety
pub mod Resolve
pub mod Gather
pub mod Collisions
pub mod Size
pub mod Bridge
