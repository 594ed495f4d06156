-- ===== src/Server/Reports.antt =====
-- `post_verify` of router.py, where a caller reports a fix, and `session_execution` of host/host.py,
-- which reads how far a session got. The payload is one that its validators let through.
use stepstitch.Prelude.{
  ℕ, String, Bool, false, Option, none, some, List, [], ◌∷◌, ◌++◌, leb, str_eq, take, keep, sort_by,
}
use stepstitch.Evidence.{derive_grade}
use stepstitch.Verdict.{Verdict, derive_verdict, verdict_text}
use stepstitch.Execution.{VerificationRow, FrozenRow, ExecutionSummary, execution_summary}
use stepstitch.Repro.Config.{ReproConfig}
use stepstitch.Repro.Needs.{readiness}
use stepstitch.Server.Store.{
  TraceRecord, FrozenRepro, Verification, ServiceStore, Site, Call, audit, find_trace, find_frozen,
}

pub record VerifyPayload : Type 0 where
  pub pre_passed : Bool
  pub post_passed : Option Bool
  pub fix_ref : Option String
  pub run_url : Option String
  pub base_commit : Option String
  pub fixed_commit : Option String

-- The grade is derived, never read from the payload.
abbrev pub reported_row : Site → Call → TraceRecord → String → VerifyPayload → Verification
reported_row site c t trace_id p = record {
  id = c.uuid;
  trace_id = trace_id;
  pre_passed = p.pre_passed;
  post_passed = p.post_passed;
  verdict = verdict_text (derive_verdict p.pre_passed p.post_passed);
  fix_ref = p.fix_ref;
  run_url = p.run_url;
  fingerprint = some (site.fingerprint trace_id t.footsteps t.project_id);
  evidence_grade = derive_grade false none;
  base_commit = p.base_commit;
  fixed_commit = p.fixed_commit;
  verified_by = c.actor;
  created_at = c.now;
}

abbrev pub report_on :
    Site
    → Call
    → String
    → VerifyPayload
    → ServiceStore
    → Option TraceRecord
    → Option Verdict × ServiceStore
report_on site c trace_id p s none = (none, s)
report_on site c trace_id p s (some t) =
    let verdict = derive_verdict p.pre_passed p.post_passed in
    (
      some verdict,
      audit c "stepstitch.verify" trace_id (verdict_text verdict)
          (record s { verifications = s.verifications ++ reported_row site c t trace_id p ∷ [] }),
    )

-- The verdict that is answered, or none for a trace that is not there.
unfoldable pub post_verify :
    Site → Call → String → VerifyPayload → ServiceStore → Option Verdict × ServiceStore
post_verify site c trace_id p s = report_on site c trace_id p s (find_trace trace_id s.traces)

abbrev pub max_rows : ℕ
max_rows = 20

-- The newest twenty rows of the session.
unfoldable pub session_rows : String → List Verification → List Verification
session_rows id rows =
    take max_rows
      (sort_by (λ a b. leb b.created_at a.created_at) (keep (λ v. str_eq v.trace_id id) rows))

abbrev pub row_of : Verification → VerificationRow
row_of v = record {
  verdict = some v.verdict;
  pre_passed = some v.pre_passed;
  post_passed = v.post_passed;
  evidence_grade = some v.evidence_grade;
}

abbrev pub rows_of : List Verification → List VerificationRow
rows_of [] = []
rows_of (v ∷ vs) = row_of v ∷ rows_of vs

abbrev pub frozen_of : Option FrozenRepro → Option FrozenRow
frozen_of none = none
frozen_of (some f) = some (record { red_verdict = some f.red_verdict })

abbrev pub execution_of :
    Site → ReproConfig → String → ServiceStore → Option TraceRecord → Option ExecutionSummary
execution_of site cfg trace_id s none = none
execution_of site cfg trace_id s (some t) = some (
    execution_summary (readiness site.python (some cfg) t.footsteps (some site.base_url))
      (frozen_of (find_frozen trace_id s.frozen)) (rows_of (session_rows trace_id s.verifications)))

unfoldable pub session_execution :
    Site → ReproConfig → String → ServiceStore → Option ExecutionSummary
session_execution site cfg trace_id s =
    execution_of site cfg trace_id s (find_trace trace_id s.traces)
