-- ===== src/Tests.antt =====
-- The theorems at concrete pipelines, Secrets and files.
mod Data
mod Secrets
mod Others
mod Workloads
mod Rounds
mod Related
mod Builds
mod Agents
