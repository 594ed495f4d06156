-- ===== src/Server.antt =====
-- The store of the service and the requests that change what a fix is judged by: router.py
-- (`save_session_trace`, `post_verify`, `delete_user_traces`) and host/host.py
-- (`freeze_reproduction`, `verify_fix`, `session_execution`). `Store` holds the tables; `Ingest`,
-- `Requests`, `Freeze`, `Verify` and `Reports` the requests; `Steps` the runs of a whole service. The
-- other modules are about them.
pub mod Store
pub mod Ingest
pub mod Requests
pub mod Freeze
pub mod Verify
pub mod Reports
pub mod Steps
pub mod Admission
pub mod Measured
pub mod Keeps
pub mod Outcomes
pub mod Completes
pub mod Phases
