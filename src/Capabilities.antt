-- ===== src/Capabilities.antt =====
-- Governed capabilities: src/skifer/capabilities.
pub mod Model
pub mod Preconditions
pub mod Autonomy
pub mod Lease
pub mod Credentials
pub mod Executors
pub mod Arguments
pub mod History
pub mod Governed
