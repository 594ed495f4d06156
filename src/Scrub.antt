-- ===== src/Scrub.antt =====
-- service/stepstitch_service/scrubber.py: the server-side scrubber. `Policy` holds the policy and its
-- overrides, `Selectors` the strict schema of selectors and routes, `Metadata` and `Payload` the
-- scrubbing of a payload; `Strict` and `Keys` hold the theorems.
-- The passes with regular expressions over free text are the parameter `redact` of `Detectors`, and
-- `route_template` is its parameter too. Frozen sets are lists. A path of the report is a constructor.
pub mod Policy
pub mod Selectors
pub mod Metadata
pub mod Payload
pub mod Strict
pub mod Keys
