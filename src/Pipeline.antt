-- ===== src/Pipeline.antt =====
-- internal/pipeline: the pipeline objects and the index of their secrets.
pub mod SecretIndex
pub mod Labels
pub mod Listing
pub mod Merge
pub mod Status
