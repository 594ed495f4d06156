-- ===== src/Policies.antt =====
-- service/stepstitch_service/profiles.py and policy_verify.py: the deployment profiles, and what the
-- offline validator says that the live router would do with a payload. `Profiles` and `Classify` hold
-- the definitions, `Refusals` and `Financial` the theorems. Of a profile the scrub knobs are kept; the posture is display.
-- The view of an agent and the printed report are left out.
pub mod Profiles
pub mod Classify
pub mod Refusals
pub mod Financial
