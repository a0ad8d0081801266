-- ===== src/Pipeline.antt =====
-- internal/pipeline: the retrying stage pipeline.
pub mod Stage
pub mod Run
pub mod Termination
pub mod Outcome
