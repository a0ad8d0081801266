-- ===== src/Store.antt =====
-- internal/db: the tables of the store as lists of rows, and its statements as functions on them.
pub mod Steps
pub mod Cache
pub mod Ledger
