-- ===== src/Server/Verify.antt =====
-- `verify_fix` of host/host.py.
use stepstitch.Prelude.{
  String, Bool, true, false, Option, none, some, [], ◌∷◌, ◌++◌, if◌then◌else◌, Result, ok, err,
}
use stepstitch.Json.{Fields}
use stepstitch.Runner.Run.{Machine, Request, ReproductionResult, RunnerError, run_reproduction}
use stepstitch.Evidence.{derive_grade}
use stepstitch.Fixcheck.{FixOutcome, fixed, FixVerdict, derive_fix_verdict}
use stepstitch.Repro.Config.{ReproConfig, given}
use stepstitch.Server.Store.{
  TraceRecord, FrozenRepro, Verification, ServiceStore, Site, Call, audit, find_trace, find_frozen,
}
use stepstitch.Server.Requests.{
  ReproduceRequest, Handled, handled, run_request, observed_run, refused, nothing_frozen, judged,
}

-- The fingerprint, where the trace is still there.
abbrev pub fingerprint_row : Site → String → Option TraceRecord → Option Fields
fingerprint_row site trace_id none = none
fingerprint_row site trace_id (some t) = some (site.fingerprint trace_id t.footsteps t.project_id)

-- Only a real red-to-green is recorded.
abbrev pub measured_row : Site → Call → String → ReproduceRequest → ServiceStore → Verification
measured_row site c trace_id req s = record {
  id = c.uuid;
  trace_id = trace_id;
  pre_passed = false;
  post_passed = some true;
  verdict = "confirmed_fixed";
  fix_ref = none;
  run_url = none;
  fingerprint = fingerprint_row site trace_id (find_trace trace_id s.traces);
  evidence_grade = derive_grade true none;
  base_commit = req.base_commit;
  fixed_commit = req.fixed_commit;
  verified_by = c.actor;
  created_at = c.now;
}

abbrev pub is_fixed : FixOutcome → Bool
is_fixed fixed = true
is_fixed _ = false

abbrev pub outcome_name : FixOutcome → String
outcome_name fixed = "fixed"
outcome_name FixOutcome.still_failing = "still_failing"
outcome_name FixOutcome.different_failure = "different_failure"
outcome_name FixOutcome.unable_to_verify = "unable_to_verify"

abbrev pub fix_verdict : Site → FrozenRepro → ReproductionResult → FixVerdict
fix_verdict site f after =
    derive_fix_verdict site.failure_signature (some f.red_verdict) f.red_signature after
      (given f.execution_envelope_sha256)

unfoldable pub verify_result :
    Site
    → Call
    → String
    → ReproduceRequest
    → Request
    → FrozenRepro
    → ServiceStore
    → ReproductionResult
    → Handled
verify_result site c trace_id req q f s after =
    let v = fix_verdict site f after in
    let s1 =
      if is_fixed v.verdict
      then record s { verifications = s.verifications ++ measured_row site c trace_id req s ∷ [] }
      else s in
    handled (judged v) (audit c "stepstitch.verify_fix" trace_id (outcome_name v.verdict) s1)
      (observed_run q after ∷ [])

-- The frozen bytes, or nothing; and the same experiment, where its envelope was stored.
abbrev pub verify_request : Site → ReproConfig → String → FrozenRepro → ReproduceRequest → Request
verify_request site cfg trace_id f req = record (run_request site cfg trace_id f.script [] req) {
  expected_sha256 = some f.sha256;
  expected_envelope_sha256 =
      if given f.execution_envelope_sha256 then f.execution_envelope_sha256 else none;
  expected_envelope_record = f.execution_envelope_json;
}

abbrev pub verify_outcome :
    Site
    → Call
    → String
    → ReproduceRequest
    → Request
    → FrozenRepro
    → ServiceStore
    → Result RunnerError ReproductionResult
    → Handled
verify_outcome site c trace_id req q f s (err e) = handled (refused e) s []
verify_outcome site c trace_id req q f s (ok after) = verify_result site c trace_id req q f s after

abbrev pub verify_frozen :
    Site
    → Machine
    → ReproConfig
    → Call
    → String
    → ReproduceRequest
    → ServiceStore
    → Option FrozenRepro
    → Handled
verify_frozen site m cfg c trace_id req s none = handled nothing_frozen s []
verify_frozen site m cfg c trace_id req s (some f) =
    let q = verify_request site cfg trace_id f req in
    verify_outcome site c trace_id req q f s (run_reproduction m q).0

unfoldable pub verify_fix :
    Site → Machine → ReproConfig → Call → String → ReproduceRequest → ServiceStore → Handled
verify_fix site m cfg c trace_id req s =
    verify_frozen site m cfg c trace_id req s (find_frozen trace_id s.frozen)
