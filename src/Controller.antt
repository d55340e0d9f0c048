-- ===== src/Controller.antt =====
-- internal/controller: the reconcilers' shared logic.
pub mod Secrets
pub mod Pipeline
