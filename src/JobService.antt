-- ===== src/JobService.antt =====
-- services/job_service.py: progress and status of a batch, submission, and the read endpoints.
pub mod Status
pub mod Submission
pub mod Reading
