-- ===== src/Server/Freeze.antt =====
-- `freeze_reproduction` and `_store_diagnostics` of host/host.py.
use stepstitch.Prelude.{
  String, Bool, true, false, not, Option, none, some, [], ◌∷◌, ◌++◌, str_eq, if◌then◌else◌, keep,
  Result, ok, err,
}
use stepstitch.Json.{Fields, end, field}
use stepstitch.Runner.{RunVerdict, reproduced, needs_setup}
use stepstitch.Runner.Run.{Machine, Request, ReproductionResult, RunnerError, run_reproduction}
use stepstitch.Fixcheck.{green_signature_of}
use stepstitch.Repro.Config.{ReproConfig}
use stepstitch.Server.Store.{TraceRecord, FrozenRepro, ServiceStore, Site, Call, audit, find_trace}
use stepstitch.Server.Requests.{
  ReproduceRequest, verdict_name, Handled, handled, app_url, run_request, observed_run, not_found,
  refused, cannot_run, frozen_as,
}

abbrev pub non_empty : String → Option String
non_empty s = if str_eq s "" then none else some s

abbrev no_fields : Fields → Bool
no_fields end = true
no_fields (field _ _ _) = false

-- The record replaces what is stored; a missing table is passed over.
unfoldable pub store_diagnostics :
    Site → Call → String → ReproductionResult → ServiceStore → ServiceStore
store_diagnostics site c trace_id red s = elim s.diagnostics [
  | none ↦ s
  | some rows ↦ if no_fields (site.diagnostics_of red) then s else record s {
    diagnostics = some (
        keep (λ d. not (str_eq d.trace_id trace_id)) rows
        ++ record {
          trace_id = trace_id;
          script_sha256 = red.script_sha256;
          execution_envelope_sha256 = red.execution_envelope_sha256;
          diagnostics_json = site.diagnostics_of red;
          created_at = c.now;
        }
          ∷ []);
  }
]

abbrev pub frozen_repro : Site → Machine → Call → String → String → ReproductionResult → FrozenRepro
frozen_repro site m c trace_id script red = record {
  trace_id = trace_id;
  script = script;
  sha256 = m.script_digest script;
  red_verdict = verdict_name red.verdict;
  red_signature = green_signature_of site.failure_signature red.runs;
  frozen_at = c.now;
  frozen_by = c.actor;
  execution_envelope_sha256 = non_empty red.execution_envelope_sha256;
  execution_envelope_json = red.execution_envelope;
}

abbrev pub is_reproduced : RunVerdict → Bool
is_reproduced reproduced = true
is_reproduced _ = false

abbrev pub is_needs_setup : RunVerdict → Bool
is_needs_setup needs_setup = true
is_needs_setup _ = false

-- After the red run: nothing is frozen by a machine that could not run it.
unfoldable pub freeze_result :
    Site → Machine → Call → String → Request → ServiceStore → ReproductionResult → Handled
freeze_result site m c trace_id q s red =
    if is_needs_setup red.verdict
    then handled (cannot_run red) s (observed_run q red ∷ [])
    else let row = frozen_repro site m c trace_id q.script red in
      let s1 = store_diagnostics site c trace_id red s in
      let s2 = record s1 {
        frozen = keep (λ f. not (str_eq f.trace_id trace_id)) s1.frozen ++ row ∷ [];
      } in
      handled (frozen_as row.sha256 red (is_reproduced red.verdict))
        (audit c "stepstitch.freeze" trace_id row.red_verdict s2) (observed_run q red ∷ [])

abbrev pub freeze_request : Site → ReproConfig → String → TraceRecord → ReproduceRequest → Request
freeze_request site cfg trace_id t req =
    record (run_request site cfg trace_id (site.compile trace_id t.footsteps (app_url site cfg) cfg)
      t.footsteps req) { diagnostics = true }

-- A refusal is an answer.
abbrev pub freeze_outcome :
    Site
    → Machine
    → Call
    → String
    → Request
    → ServiceStore
    → Result RunnerError ReproductionResult
    → Handled
freeze_outcome site m c trace_id q s (err e) = handled (refused e) s []
freeze_outcome site m c trace_id q s (ok red) = freeze_result site m c trace_id q s red

abbrev pub freeze_trace :
    Site
    → Machine
    → ReproConfig
    → Call
    → String
    → ReproduceRequest
    → ServiceStore
    → Option TraceRecord
    → Handled
freeze_trace site m cfg c trace_id req s none = handled not_found s []
freeze_trace site m cfg c trace_id req s (some t) =
    let q = freeze_request site cfg trace_id t req in
    freeze_outcome site m c trace_id q s (run_reproduction m q).0

unfoldable pub freeze_reproduction :
    Site → Machine → ReproConfig → Call → String → ReproduceRequest → ServiceStore → Handled
freeze_reproduction site m cfg c trace_id req s =
    freeze_trace site m cfg c trace_id req s (find_trace trace_id s.traces)
