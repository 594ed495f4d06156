-- ===== src/Examples/Loop.antt =====
-- A session that is ingested, frozen on a red machine and verified on a green one (router.py,
-- host/host.py, scrubber.py, repro_config.py).
use stepstitch.Prelude.{
  ℕ, ◌≡◌, refl, String, true, false, none, some, List, [], ◌∷◌, ◌++◌, all, sort_by, ok,
}
use stepstitch.Prelude.Int.{pos}
use stepstitch.Prelude.Text.{codes}
use stepstitch.Json.{null, str, obj, Fields, end, field, lookup}
use stepstitch.Runner.{RunAttempt, no_detail, derive_verdict, reproduced, not_reproduced}
use stepstitch.Runner.Classify.{
  classify_run, has_summary, find_marker, whole_word, spaces_outcome, digits_outcome, search_from,
}
use stepstitch.Runner.Run.{
  Machine, Request, ReproductionResult, completed, run_reproduction, after_envelope, execute_runs,
  run_loop, concluded, blockers, full_readiness, check_address_allowed,
}
use stepstitch.Envelope.{check_envelope, sha256}
use stepstitch.Scrub.Policy.{ScrubPolicy, financial_services_enterprise}
use stepstitch.Repro.Config.{no_config}
use stepstitch.Server.Store.{
  TraceRecord, ServiceStore, Site, Call, FrozenRepro, Verification, find_trace, find_frozen,
}
use stepstitch.Server.Ingest.{IngestTracePayload, not_given, save_session_trace}
use stepstitch.Server.Requests.{ReproduceRequest, Observed, Handled}
use stepstitch.Server.Freeze.{freeze_reproduction, freeze_request, frozen_repro}
use stepstitch.Server.Verify.{verify_fix, verify_request}
use stepstitch.Server.Steps.{Reach, here, next, ingests, freezes, verifies, empty_store}
use stepstitch.Server.Measured.{row_is_sound, red_to_green}
use stepstitch.Server.Outcomes.{Reach-rows_sound, session_execution_measured}
use stepstitch.Server.Phases.{Step-phase, phase, may_move}
use stepstitch.Server.Admission.{Ingested, save_session_trace-Ingested}
use stepstitch.Server.Completes.{verify_fix-freeze_reproduction}
use stepstitch.Server.Reports.{session_execution, frozen_of, rows_of, session_rows}
use stepstitch.Execution.{
  confirmed_fixed, derive_execution_state, ExecutionSummary, execution_summary,
}
use stepstitch.Scrub.Payload.{scrub_trace_payload, scrub_all, scrub_explanation, scrub_steps}
use stepstitch.Server.Ingest.{capture_allowed, active_policy, raw_payload}
use stepstitch.Repro.Needs.{readiness, route_params_in, params_from}
use stepstitch.Scrub.Policy.{strict_schema_active}
use stepstitch.Scrub.Metadata.{scrub_metadata, scrub_fields}
use stepstitch.Scrub.Payload.{scrub_top_metadata, set_key, first_seen, merge_counts}
use stepstitch.Fixcheck.{derive_fix_verdict, green_signature_of}
use stepstitch.Evidence.{derive_grade}
use stepstitch.Server.Freeze.{freeze_result, store_diagnostics}
use stepstitch.Server.Verify.{verify_result}
use stepstitch.Prelude.{insert_by}
use stepstitch.Examples.Runs.{red_attempt, between, machine, red_machine}

abbrev pub strict : ScrubPolicy
strict = record financial_services_enterprise {
  selector_policy = "approved_testids";
  route_policy = "operator_templates";
  route_templates = "/pay" ∷ [];
  enforce_masked_labels = true;
  reject_on_forbidden = true;
}

abbrev pub site : Site
site = record {
  python = record {
    search = λ p s. false;
    search_cased = λ p s. false;
    compiles = λ s. true;
    escape = λ s. s;
    lower = λ s. s;
    str_of = λ v. "";
  };
  detectors = record {
    redact = λ extra skip s. (s, []);
    route_template = λ s. s;
    is_digit = between 48 57;
  };
  scrub_policy = strict;
  to_text = λ v. "";
  retention_seconds = 100;
  base_url = "app";
  compile = λ id steps url cfg. "test";
  fingerprint = λ id steps project. end;
  failure_signature = λ t. "sig";
  diagnostics_of = λ r. end;
}

-- A session with no step, under the default policy.
abbrev plain : Site
plain = record site { scrub_policy = financial_services_enterprise }

abbrev call : String → ℕ → Call
call uuid now = record { uuid = uuid; now = now; actor = "ana" }

abbrev pub step : Fields
step = field "timestamp" (str "t1") (
    field "type" (str "navigation") (
      field "route" (str "/pay")
        (field "target" null (field "label" (str "Pay Ana") (field "metadata" null end)))))

abbrev payload : IngestTracePayload
payload = record {
  app_id = "shop";
  project_id = none;
  explanation = none;
  footsteps = step ∷ [];
  consent_version = none;
  metadata = end;
}

abbrev no_steps : IngestTracePayload
no_steps = record payload { footsteps = [] }

abbrev run_once : ReproduceRequest
run_once = record {
  runs = pos 1;
  timeout_seconds = pos 30;
  base_commit = none;
  fixed_commit = none;
}

abbrev green_machine : Machine
green_machine = machine (completed (pos 0) (codes "  1 passed"))

abbrev stored : TraceRecord
stored = record {
  id = "t1";
  app_id = "shop";
  project_id = none;
  user_id = "ana";
  explanation = null;
  footsteps = [];
  trace_metadata = obj end;
  scrub = record {
    is_clean = true;
    scrubbed_fields = [];
    policy = "financial-services-enterprise";
    kinds = [];
    schema_passed = none;
  };
  consent_version = none;
  retention_expires_at = 101;
  created_at = 1;
  fingerprint = end;
}

abbrev ingested : ServiceStore
ingested = (save_session_trace plain not_given not_given (call "t1" 1) no_steps empty_store).1

is_stored : find_trace "t1" ingested.traces ≡ some stored
unfolding save_session_trace capture_allowed active_policy raw_payload scrub_trace_payload scrub_all
    scrub_explanation scrub_steps scrub_top_metadata scrub_metadata scrub_fields set_key lookup
    first_seen merge_counts strict_schema_active find_trace
is_stored = refl

abbrev frozen : Handled
frozen = freeze_reproduction plain red_machine no_config (call "u2" 2) "t1" run_once ingested

abbrev verified : Handled
verified = verify_fix plain green_machine no_config (call "u3" 3) "t1" run_once frozen.store

abbrev history : List Observed
history = verified.observed ++ (frozen.observed ++ ([] ++ []))

reached : Reach plain empty_store history verified.store
reached =
    next
      (next (next here (ingests not_given not_given (call "t1" 1) no_steps))
        (freezes red_machine no_config (call "u2" 2) "t1" run_once))
      (verifies green_machine no_config (call "u3" 3) "t1" run_once)

Reach-rows_sound_example : all (row_is_sound history) verified.store.verifications ≡ true
Reach-rows_sound_example = Reach-rows_sound plain history verified.store reached

abbrev red_request : Request
red_request = freeze_request plain no_config "t1" stored run_once

abbrev red_result : ReproductionResult
red_result = concluded red_machine red_request (red_attempt 0 ∷ [], false)

red_run : (run_reproduction red_machine red_request).0 ≡ ok red_result
unfolding run_reproduction after_envelope execute_runs run_loop classify_run has_summary find_marker
    whole_word spaces_outcome digits_outcome search_from check_envelope sha256 blockers
    full_readiness check_address_allowed readiness route_params_in params_from
red_run = refl

is_red : red_result.verdict ≡ reproduced
unfolding concluded derive_verdict
is_red = refl

abbrev row : FrozenRepro
row = frozen_repro plain red_machine (call "u2" 2) "t1" "test" red_result

abbrev green_request : Request
green_request = verify_request plain no_config "t1" row run_once

abbrev green_attempt : RunAttempt
green_attempt = record {
  index = 0;
  exit_code = some (pos 0);
  passed = true;
  timed_out = false;
  transcript = codes "  1 passed";
  errored = false;
  error_detail = no_detail;
}

abbrev green_result : ReproductionResult
green_result = concluded green_machine green_request (green_attempt ∷ [], false)

green_run : (run_reproduction green_machine green_request).0 ≡ ok green_result
unfolding run_reproduction after_envelope execute_runs run_loop classify_run has_summary find_marker
    whole_word spaces_outcome digits_outcome search_from check_envelope sha256 blockers
    full_readiness check_address_allowed readiness route_params_in params_from concluded
green_run = refl

is_green : green_result.verdict ≡ not_reproduced
unfolding concluded derive_verdict
is_green = refl

verify_fix-freeze_reproduction_example :
    (v : Verification) × (verified.store.verifications ≡ ingested.verifications ++ v ∷ [])
    × (v.trace_id ≡ "t1")
    × (v.verdict ≡ "confirmed_fixed")
    × (v.evidence_grade ≡ "measured")
verify_fix-freeze_reproduction_example =
    verify_fix-freeze_reproduction plain red_machine green_machine no_config no_config (call "u2" 2)
      (call "u3" 3) "t1" run_once run_once ingested stored red_result green_result is_stored red_run
      is_red green_run is_green

Step-phase_example : may_move (phase "t1" frozen.store) (phase "t1" verified.store) ≡ true
Step-phase_example =
    Step-phase plain frozen.store verified.observed verified.store "t1"
      (verifies green_machine no_config (call "u3" 3) "t1" run_once)

save_session_trace-Ingested_example :
    let r = save_session_trace site not_given not_given (call "t1" 1) payload empty_store in
    Ingested site (active_policy site not_given) (call "t1" 1) empty_store r.0 r.1
save_session_trace-Ingested_example =
    save_session_trace-Ingested site not_given not_given (call "t1" 1) payload empty_store
      (record { routes = refl; selectors = refl; labels = refl })

-- What the console reads of the session.
abbrev summary : ExecutionSummary
summary =
    execution_summary (readiness plain.python (some no_config) [] (some "app"))
      (frozen_of (find_frozen "t1" verified.store.frozen))
      (rows_of (session_rows "t1" verified.store.verifications))

is_summary : session_execution plain no_config "t1" verified.store ≡ some summary
unfolding save_session_trace capture_allowed active_policy raw_payload scrub_trace_payload scrub_all
    scrub_explanation scrub_steps scrub_top_metadata scrub_metadata scrub_fields set_key lookup
    first_seen merge_counts strict_schema_active find_trace run_reproduction after_envelope
    execute_runs run_loop classify_run has_summary find_marker whole_word spaces_outcome
    digits_outcome search_from check_envelope sha256 blockers full_readiness check_address_allowed
    readiness route_params_in params_from concluded derive_verdict freeze_reproduction freeze_result
    store_diagnostics find_frozen verify_fix verify_result derive_fix_verdict green_signature_of
    derive_grade session_execution
is_summary = refl

is_graded : summary.evidence_grade ≡ some "measured"
unfolding save_session_trace capture_allowed active_policy raw_payload scrub_trace_payload scrub_all
    scrub_explanation scrub_steps scrub_top_metadata scrub_metadata scrub_fields set_key lookup
    first_seen merge_counts strict_schema_active find_trace run_reproduction after_envelope
    execute_runs run_loop classify_run has_summary find_marker whole_word spaces_outcome
    digits_outcome search_from check_envelope sha256 blockers full_readiness check_address_allowed
    readiness route_params_in params_from concluded derive_verdict freeze_reproduction freeze_result
    store_diagnostics find_frozen verify_fix verify_result derive_fix_verdict green_signature_of
    derive_grade execution_summary session_rows sort_by insert_by
is_graded = refl

is_confirmed : summary.execution_state ≡ confirmed_fixed
unfolding save_session_trace capture_allowed active_policy raw_payload scrub_trace_payload scrub_all
    scrub_explanation scrub_steps scrub_top_metadata scrub_metadata scrub_fields set_key lookup
    first_seen merge_counts strict_schema_active find_trace run_reproduction after_envelope
    execute_runs run_loop classify_run has_summary find_marker whole_word spaces_outcome
    digits_outcome search_from check_envelope sha256 blockers full_readiness check_address_allowed
    readiness route_params_in params_from concluded derive_verdict freeze_reproduction freeze_result
    store_diagnostics find_frozen verify_fix verify_result derive_fix_verdict green_signature_of
    derive_grade execution_summary derive_execution_state session_rows sort_by insert_by
is_confirmed = refl

session_execution_measured_example : red_to_green "t1" history ≡ true
session_execution_measured_example =
    session_execution_measured plain history verified.store no_config "t1" summary reached
      is_summary is_graded
