-- ===== src/GitHub.antt =====
-- internal/github: stages and their labels, issues, and the calls that change a stage.
pub mod Stage
pub mod Reason
pub mod Issue
pub mod Checks
pub mod Client
pub mod Labels
pub mod Relabel
