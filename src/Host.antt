-- ===== src/Host.antt =====
-- service/stepstitch_service/host: the credentials of the ingest host.
pub mod Auth
pub mod Agents
pub mod Settings
pub mod Saved
pub mod Boundary
pub mod Admitted
