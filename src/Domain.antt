-- ===== src/Domain.antt =====
-- domain/: the enumerations and the entities that every layer shares.
pub mod Enums
pub mod Json
pub mod Entities
pub mod Pages
