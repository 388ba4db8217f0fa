-- ===== src/Observability.antt =====
-- Certified publication: src/skifer/observability.
pub mod Checks
pub mod Incidents
pub mod Downstream
pub mod Recipients
pub mod IncidentTable
pub mod Journal
pub mod Publication
mod Examples
pub mod Certification
