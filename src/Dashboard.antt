-- ===== src/Dashboard.antt =====
-- internal/dashboard: the parts behind the handlers, one module for each.
pub mod Hub
pub mod Sync
pub mod Wizard
pub mod Tickets
pub mod Board
pub mod Sprint
pub mod Controls
