-- ===== src/Lib.antt =====
-- StepStitch turns the privacy-safe trace of a failure into a reproduction, runs it before and after
-- a fix, and keeps the outcome as evidence. This library models the decisions of the Python service
-- (service/stepstitch_service) and proves what they guarantee.
--
-- How the parts work together. A trace is scrubbed as it is stored, scored for how well it replays and compiled to a script.
-- The runner executes the frozen script and answers with a verdict; an execution envelope makes sure
-- that the run after the fix is the same experiment. The verdicts are recorded, the execution state
-- and the fix verdict are derived from them, and a proof document binds the fix to its evidence,
-- which a policy verifies offline. Traces that fail the same way are grouped into shapes, matched
-- with earlier fixes, and delivered as drafts; the host decides who may read and write, and purges
-- what is too old.
--
-- Files, and the code that each one models (paths below service/stepstitch_service):
--   Prelude      tests, lists, sorting, results, integers and texts that the parts share
--   Json         JSON values as the code passes them, with Python's get, == and truth
--   Envelope     diagnostics.py: ExecutionEnvelope, _record_may_explain, check_envelope
--   Runner       runner.py: derive_verdict; Runner/Classify: classify_run; Runner/Run:
--                run_reproduction with its gates, its loop and its effects on the machine
--   Verdict      verification/verdict.py
--   Fixcheck     fixcheck.py: derive_fix_verdict
--   Execution    execution.py: blocking_items, derive_execution_state, execution_summary
--   Evidence     evidence.py: grades and verify_bundle
--   Fixproof     fixproof.py: Statement builds and wraps, Policy reads trust anchors and signatures,
--                Verify is verify_fixproof; Signing: sign_statement and host/signing.py
--   Ed25519      _ed25519.py: Points is the arithmetic and the encoding, Keys the operations
--   Replay       replayability.py: score_trace; Replay/Fragility: fragility.py
--   FixMemory    fix_memory.py: fingerprint, similarity, match
--   Shapes       shapes.py: derive_stage, cluster, board
--   Metrics      metrics.py
--   Delivery     delivery/base.py and assert_flat of integrations/base.py
--   Bridge       github_bridge/bridge.py: create_issue and open_regression_pr
--   Host         host/auth.py, host/agents.py, and of host/host.py: Settings saves and reads the stored
--                configurations, Boundary is the scope middleware with the guard of responses
--   Retention    retention.py
--   Scrub        scrubber.py: Policy, Selectors, Metadata and Payload, which is scrub_trace_payload
--   Egress       egress.py: guard_outbound
--   Policies     profiles.py, and classify_payload of policy_verify.py
--   Repro        repro_config.py: Config, Needs, which is route_params_in and readiness, and
--                Document, which is from_dict and as_dict
--   Compiler     compiler.py: a statement for the lines of each part of the test, and Emit, which is
--                generate_playwright_test
--   Server       router.py and host/host.py: Store holds the tables, Ingest save_session_trace and
--                delete_user_traces, Freeze freeze_reproduction, Verify verify_fix, Requests what the
--                two share and reproduce_locally, Reports post_verify and session_execution; Steps has
--                the requests in any order
--   Examples     concrete inputs, at which the theorems are applied
-- The module of a part holds its definitions; its child modules hold the theorems, or further
-- definitions of a large part.
--
-- Conventions. A raised exception is an err value, and effects are a list in the order in which they
-- happen. Stores and tables are lists. A call
-- runs to its end before the next begins. A score is a whole number of hundredths and a risk of
-- thousandths, since every charge of the source is one; a similarity is the exact quotient of two
-- sums. Sentences meant for a reader are replaced by constructors that keep which one is chosen.
--
-- Bounds. No definition uses fuel: loops are recursion on lists, the runs are a recursion on the
-- number of runs, which is clamped to between 1 and 10 as in the source, and the double-and-add loop
-- is a recursion on the halving of its exponent.
--
-- Parameters. SHA-256, canonical JSON bytes, the signature library, json.dumps and json.loads, the address parser, the child process, the
-- browser probe, the character classes of Python's str methods, the transcript scrubber and the
-- failure signature are arguments of the definitions. So are the scrubber's passes with regular
-- expressions, those of the egress guard, and of the requests the script that the compiler returns, the fingerprint of a trace summary, the clock, the
-- new identifiers and what the host's callables answer. Each run is made on a machine of its own.
--
-- Not modelled. Of the compiler's output the fixed lines, the score and its warnings are left out. Of the router and the host only
-- the requests named above are; the others read, compose and display. The SQL is taken for what it
-- says of the tables, each request for one step, and no statement fails but on the missing table of
-- diagnostics. The command lines, the console pages and the integrations are input and output or glue.
-- Durations, clock columns and the collection of run diagnostics are left out of the parts that are
-- modelled.
pub mod Prelude
pub mod Json
pub mod Egress
pub mod Ed25519
pub mod Envelope
pub mod Runner
pub mod Verdict
pub mod Fixcheck
pub mod Execution
pub mod Evidence
pub mod Fixproof
pub mod Replay
pub mod FixMemory
pub mod Policies
pub mod Repro
pub mod Scrub
pub mod Compiler
pub mod Server
pub mod Shapes
pub mod Metrics
pub mod Host
pub mod Bridge
pub mod Delivery
pub mod Retention
pub mod Examples
