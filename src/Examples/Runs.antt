-- ===== src/Examples/Runs.antt =====
-- Runs of the reproduction on concrete machines (runner.py, diagnostics.py, fixcheck.py).
use stepstitch.Prelude.{
  length, ◌≢◌, insert_by, ℕ, ◌≡◌, refl, ◌↔◌, String, Bool, true, false, ◌&&◌, ◌||◌, Option, none,
  some, List, [], ◌∷◌, leb, ◌==◌, is_empty, any, all, sort_by, ok, err,
}
use stepstitch.Prelude.Int.{is_zero, pos}
use stepstitch.Prelude.Text.{Text, codes}
use stepstitch.Json.{
  texts, json_eq, lookup, keys, sorted, drop_keys, extract, get, Json, null, str, obj, Fields,
}
use stepstitch.Envelope.{
  moved, record_may_explain, moved_keys, refuse, ExecutionEnvelope, check_envelope, sha256,
  hashed_payload, as_dict, canonical,
}
use stepstitch.Envelope.Refusals.{IsSameExperiment, check_envelope_accepts}
use stepstitch.Runner.{RunAttempt, reproduced, not_reproduced, no_detail, derive_verdict}
use stepstitch.Runner.Attempts.{derive_verdict_exact, red}
use stepstitch.Runner.Summaries.{IsSummary, classify_run_exact}
use stepstitch.Prelude.Text.{is_infix}
use stepstitch.Runner.Classify.{
  never_ran_markers, Chars, classify_run, has_summary, find_marker, whole_word, spaces_outcome,
  digits_outcome, search_from,
}
use stepstitch.Runner.Run.{
  Machine, Request, completed, run_reproduction, after_envelope, execute_runs, run_loop, concluded,
  ReproductionResult, blockers, full_readiness, Outcome, check_address_allowed,
}
use stepstitch.Runner.Gates.{run_reproduction_gates, touches}
use stepstitch.Runner.Evidence.{run_reproduction_reproduced, FailedFrom}
use stepstitch.Fixcheck.{derive_fix_verdict, fixed}
use stepstitch.Fixcheck.Verdicts.{derive_fix_verdict_exact}

abbrev pub between : ℕ → ℕ → ℕ → Bool
between lo hi c = leb lo c && leb c hi

abbrev pub ascii : Chars
ascii = record {
  is_digit = between 48 57;
  is_space = λ c. (c == 32) || between 9 13 c;
  is_word = λ c. between 48 57 c || between 65 90 c || between 97 122 c || (c == 95);
  is_break = λ c. c == 10;
}

-- A machine on which every child process comes to the same outcome.
abbrev pub machine : Outcome → Machine
machine outcome = record {
  chars = ascii;
  script_digest = λ s. s;
  dump = λ d. "{}";
  digest = λ d. "frozen";
  urlparse = λ u. record { scheme = "http"; hostname = some u; port = none };
  probe = λ headless. record {
    build = "chromium 1";
    install_location = "/browsers";
    present = some true;
  };
  execute = λ i. outcome;
  should_cancel = λ i. false;
  scrub = λ t. t;
  env_allowlist = "PATH" ∷ "HOME" ∷ [];
}

abbrev pub red_machine : Machine
red_machine = machine (completed (pos 1) (codes "  1 failed"))

abbrev request : Request
request = record {
  session_id = "s1";
  script = "test";
  base_url = "app";
  allowed_addresses = [];
  expected_sha256 = some "test";
  readiness = record { id = "auth"; ready = false; blocking = some false } ∷ [];
  runs = pos 2;
  timeout_seconds = pos 30;
  screenshots = false;
  diagnostics = false;
  expected_envelope_sha256 = some "frozen";
  expected_envelope_record = null;
}

abbrev pub red_attempt : ℕ → RunAttempt
red_attempt i = record {
  index = i;
  exit_code = some (pos 1);
  passed = false;
  timed_out = false;
  transcript = codes "  1 failed";
  errored = false;
  error_detail = no_detail;
}

abbrev red_attempts : List RunAttempt
red_attempts = red_attempt 0 ∷ red_attempt 1 ∷ []

abbrev red_result : ReproductionResult
red_result = concluded red_machine request (red_attempts, false)

red_runs : (run_reproduction red_machine request).0 ≡ ok red_result
unfolding run_reproduction after_envelope execute_runs run_loop classify_run has_summary find_marker
    whole_word spaces_outcome digits_outcome search_from check_envelope sha256 blockers
    full_readiness check_address_allowed
red_runs = refl

red_verdict : red_result.verdict ≡ reproduced
unfolding concluded derive_verdict
red_verdict = refl

touched : any touches (run_reproduction red_machine request).1 ≡ true
unfolding run_reproduction after_envelope execute_runs check_envelope sha256 blockers full_readiness
    check_address_allowed
touched = refl

run_reproduction_gates_example : is_empty (blockers (full_readiness red_machine request)) ≡ true
run_reproduction_gates_example = (run_reproduction_gates red_machine request touched).2

run_reproduction_reproduced_example :
    (is_empty red_result.runs ≡ false)
    × (length red_result.runs ≡ 2)
    × (red_result.cancelled ≡ false)
    × FailedFrom red_machine 0 red_result.runs
run_reproduction_reproduced_example =
    run_reproduction_reproduced red_machine request red_result red_runs red_verdict

derive_verdict_exact_example :
    ((derive_verdict red_attempts).0 ≡ reproduced)
    ↔ ((is_empty red_attempts ≡ false) × (all red red_attempts ≡ true))
derive_verdict_exact_example = (derive_verdict_exact red_attempts).0

classify_run_exact_example :
    let text = codes "  1 failed" in
    let r = classify_run ascii (some (pos 1)) text in
    ((r.0 ≡ true) ↔ (is_zero (pos 1) ≡ true))
    × (((r.0 ≡ false) × (r.1 ≡ false)) ↔ (
        (is_zero (pos 1) ≡ false)
        × (any (λ m. is_infix (codes m) text) never_ran_markers ≡ false)
        × IsSummary ascii text))
classify_run_exact_example = classify_run_exact ascii (some (pos 1)) (codes "  1 failed")

-- A digest that tells envelopes apart by their browser.
abbrev text_or : Json → String
text_or (str s) = s
text_or _ = ""

abbrev by_browser : Fields → String
by_browser d = text_or (get "browser" d)

abbrev envelope_on : String → ExecutionEnvelope
envelope_on browser = record {
  config_canonical = "{}";
  browser = browser;
  base_url = "app";
  timeout_ms = 30000;
  retries = 0;
  diagnostics_profile = "off";
  runner_version = "1";
  env_names = "PATH" ∷ [];
}

abbrev firefox : String
firefox = "firefox"

abbrev measured_red : Option String
measured_red = some "reproduced"

abbrev stored_record : Json
stored_record = obj (hashed_payload (envelope_on "firefox"))

abbrev frozen_run : ExecutionEnvelope
frozen_run = record (envelope_on "firefox") { env_names = "PATH" ∷ "HOME" ∷ [] }

-- The same experiment, observed, with the names in another order.
abbrev observed_run : ExecutionEnvelope
observed_run = record frozen_run {
  env_names = "HOME" ∷ "PATH" ∷ [];
  diagnostics_profile = "four-signal";
}

digest_stated : sha256 by_browser frozen_run ≢ ""
unfolding sha256 canonical hashed_payload as_dict drop_keys keys sorted extract lookup sort_by
    insert_by
digest_stated h = cc

same_document : canonical (hashed_payload observed_run) ≡ canonical (hashed_payload frozen_run)
unfolding canonical hashed_payload as_dict drop_keys keys sorted extract lookup sort_by insert_by
    texts
same_document = refl

check_envelope_accepts_example :
    (check_envelope by_browser (some (sha256 by_browser frozen_run)) observed_run stored_record
      ≡ ok tt)
    ↔ IsSameExperiment by_browser observed_run frozen_run
check_envelope_accepts_example =
    check_envelope_accepts by_browser frozen_run observed_run stored_record digest_stated
      (λ _. same_document)

browser_moved :
    check_envelope by_browser (some "firefox") (envelope_on "chromium") stored_record
    ≡ err (moved ("browser" ∷ []))
unfolding check_envelope sha256 canonical hashed_payload as_dict drop_keys keys sorted extract
    lookup record_may_explain moved_keys refuse sort_by insert_by json_eq texts
browser_moved = refl

abbrev same_text : Text → String
same_text t = "timeout"

abbrev green_result : ReproductionResult
green_result = record red_result { verdict = not_reproduced; runs = [] }

derive_fix_verdict_exact_example :
    ((derive_fix_verdict same_text (some "reproduced") "timeout" green_result true).verdict ≡ fixed)
    ↔ ((measured_red ≡ some "reproduced") × (green_result.verdict ≡ not_reproduced))
derive_fix_verdict_exact_example =
    (derive_fix_verdict_exact same_text (some "reproduced") "timeout" green_result true).0
