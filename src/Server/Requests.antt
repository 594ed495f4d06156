-- ===== src/Server/Requests.antt =====
-- What the run requests of host/host.py share, and `reproduce_locally`. A handler takes the machine
-- that its run is made on, and lists the run that it made.
use stepstitch.Prelude.{
  String, Bool, false, Option, none, some, List, [], ◌∷◌, if◌then◌else◌, get_or, Result, ok, err,
}
use stepstitch.Json.{null, Fields}
use stepstitch.Runner.{RunVerdict, reproduced, not_reproduced, needs_setup, inconclusive}
use stepstitch.Runner.Run.{Machine, Request, ReproductionResult, RunnerError, run_reproduction}
use stepstitch.Prelude.Int.{ℤ}
use stepstitch.Fixcheck.{FixVerdict}
use stepstitch.Repro.Config.{ReproConfig, given}
use stepstitch.Repro.Needs.{readiness}
use stepstitch.Server.Store.{TraceRecord, ServiceStore, Site, Call, audit, find_trace}

pub record ReproduceRequest : Type 0 where
  pub runs : ℤ
  pub timeout_seconds : ℤ
  pub base_commit : Option String
  pub fixed_commit : Option String

-- A run that was made: for which session, of which script, and what it came to.
pub record Observed : Type 0 where
  pub session : String
  pub script : String
  pub verdict : RunVerdict

abbrev pub verdict_name : RunVerdict → String
verdict_name reproduced = "reproduced"
verdict_name not_reproduced = "not_reproduced"
verdict_name needs_setup = "needs_setup"
verdict_name inconclusive = "inconclusive"

pub data Answer : Type 0 where
  not_found : Answer
  refused : RunnerError → Answer
  nothing_frozen : Answer
  cannot_run : ReproductionResult → Answer
  reproduction : ReproductionResult → Answer
  frozen_as : String → ReproductionResult → Bool → Answer
  judged : FixVerdict → Answer

pub record Handled : Type 0 where
  pub answer : Answer
  pub store : ServiceStore
  pub observed : List Observed

abbrev pub handled : Answer → ServiceStore → List Observed → Handled
handled a s o = record { answer = a; store = s; observed = o }

abbrev pub app_url : Site → ReproConfig → String
app_url site cfg = if given cfg.base_url then get_or cfg.base_url "" else site.base_url

-- The calls of the three handlers have this much in common.
abbrev pub run_request :
    Site → ReproConfig → String → String → List Fields → ReproduceRequest → Request
run_request site cfg trace_id script footsteps req = record {
  session_id = trace_id;
  script = script;
  base_url = app_url site cfg;
  allowed_addresses = [];
  expected_sha256 = none;
  readiness = readiness site.python (some cfg) footsteps (some site.base_url);
  runs = req.runs;
  timeout_seconds = req.timeout_seconds;
  screenshots = false;
  diagnostics = false;
  expected_envelope_sha256 = none;
  expected_envelope_record = null;
}

abbrev pub observed_run : Request → ReproductionResult → Observed
observed_run q r = record { session = q.session_id; script = q.script; verdict = r.verdict }

abbrev pub reproduce_outcome :
    Request → ServiceStore → Result RunnerError ReproductionResult → Handled
reproduce_outcome q s (err e) = handled (refused e) s []
reproduce_outcome q s (ok r) = handled (reproduction r) s (observed_run q r ∷ [])

abbrev pub reproduce_trace :
    Site
    → Machine
    → ReproConfig
    → Call
    → String
    → ReproduceRequest
    → ServiceStore
    → Option TraceRecord
    → Handled
reproduce_trace site m cfg c trace_id req s none = handled not_found s []
reproduce_trace site m cfg c trace_id req s (some t) =
    let script = site.compile trace_id t.footsteps (app_url site cfg) cfg in
    let q = run_request site cfg trace_id script t.footsteps req in
    reproduce_outcome q (audit c "stepstitch.reproduce" trace_id "" s) (run_reproduction m q).0

-- A run for the console: the store keeps only that it was asked for.
unfoldable pub reproduce_locally :
    Site → Machine → ReproConfig → Call → String → ReproduceRequest → ServiceStore → Handled
reproduce_locally site m cfg c trace_id req s =
    reproduce_trace site m cfg c trace_id req s (find_trace trace_id s.traces)
