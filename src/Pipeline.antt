-- ===== src/Pipeline.antt =====
-- domain/pipeline: the extractors, the companion, its validator, the sidecar and the confidence.
pub mod Confidence
pub mod Validation
pub mod Sidecar
pub mod DrawingNumber
pub mod Companion
pub mod Reported
pub mod Title
pub mod Responses
pub mod DocumentKind
