-- ===== src/Mvp.antt =====
-- internal/mvp: the orchestrator, which owns the stage of every issue, and its worker.
pub mod Events
pub mod Orchestrator
pub mod Worker
pub mod Round
pub mod ChatHistory
