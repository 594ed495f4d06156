-- ===== src/Repro.antt =====
-- service/stepstitch_service/repro_config.py: the project's reproduction settings and what a trace
-- still needs before its reproduction can run. `Config` holds the settings and the values they give,
-- `Needs` the readiness items; `Ready` is about the two together.
pub mod Config
pub mod Needs
pub mod Document
pub mod Screened
pub mod Roundtrip
pub mod Ready
