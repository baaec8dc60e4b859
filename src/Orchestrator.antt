-- ===== src/Orchestrator.antt =====
-- services/orchestrator.py: the pipeline of one job.
pub mod Trace
pub mod Extraction
pub mod Stages
pub mod Delivery
pub mod Run
