-- ===== src/Repository.antt =====
-- infrastructure/database: models.py, repository.py. The tables are lists of rows, in the columns'
-- types; a query is what its `select(…).where(…)` says, a commit makes the new tables visible.
-- PostgreSQL enters by `Engine`: how it orders rows and what NUMERIC(4, 3) stores for a float.
pub mod Rows
pub mod Session
pub mod Queries
pub mod Mapping
pub mod Updates
pub mod Pending
pub mod Batches
pub mod Actions
