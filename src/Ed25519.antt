-- ===== src/Ed25519.antt =====
-- service/stepstitch_service/_ed25519.py: the check of a trust anchor, and what is delegated to the
-- signature library. `Points` holds the curve arithmetic and the encoding of a point, `Keys` the
-- operations on keys and signatures; `Loop`, `Curve` and `Encoding` are about them.
pub mod Points
pub mod Keys
pub mod Loop
pub mod Curve
pub mod Encoding
