-- ===== src/Runner/Run.antt =====
-- service/stepstitch_service/runner.py: `run_reproduction`, with what it does to the machine.
-- The machine is the parameter `Machine`: digests, the browser probe, the address parser, the
-- child process, the cancel poll and the transcript scrubber. Effects are listed in order.
use stepstitch.Prelude.{
  ◌>>=◌, ◌==◌, ℕ, zero, suc, ◌*◌, String, Bool, true, false, not, ◌&&◌, Option, none, some, List,
  [], ◌∷◌, ◌++◌, if◌then◌else◌, any, keep, is_empty, str_eq, get_or, Result, ok, err,
}
use stepstitch.Prelude.Int.{ℤ, pos, clamp}
use stepstitch.Prelude.Text.{codes, Text}
use stepstitch.Json.{Json, null, bool, num, str, obj, Fields, end, field, drop_keys}
use stepstitch.Envelope.{ExecutionEnvelope, EnvelopeMismatch, as_dict, check_envelope, sha256}
use stepstitch.Runner.{
  RunVerdict, needs_setup, inconclusive, ErrorDetail, no_detail, line, RunAttempt, derive_verdict,
}
use stepstitch.Runner.Classify.{Chars, classify_run}

abbrev pub max_runs : ℕ
max_runs = 10

abbrev pub max_timeout_seconds : ℕ
max_timeout_seconds = 600

pub data RunnerError : Type 0 where
  not_the_frozen_script : RunnerError
  envelope_mismatch : EnvelopeMismatch → RunnerError
  no_address_configured : RunnerError
  address_not_allowed : RunnerError
  npx_not_found : RunnerError

pub record BrowserIdentity : Type 0 where
  pub build : String
  pub install_location : String
  pub present : Option Bool

-- A readiness item; `blocking` may be missing.
pub record ReadinessItem : Type 0 where
  pub id : String
  pub ready : Bool
  pub blocking : Option Bool

pub record Address : Type 0 where
  pub scheme : String
  pub hostname : Option String
  pub port : Option ℕ

-- What `subprocess.run` of the fixed command line comes to.
pub data Outcome : Type 0 where
  completed : ℤ → Text → Outcome
  timeout_expired : Text → Outcome
  file_not_found : Outcome

pub record Machine : Type 0 where
  pub chars : Chars
  pub script_digest : String → String
  pub dump : Fields → String
  pub digest : Fields → String
  pub urlparse : String → Address
  pub probe : Bool → BrowserIdentity
  pub execute : ℕ → Outcome
  pub should_cancel : ℕ → Bool
  pub scrub : Text → Text
  pub env_allowlist : List String

pub record Request : Type 0 where
  pub session_id : String
  pub script : String
  pub base_url : String
  pub allowed_addresses : List String
  pub expected_sha256 : Option String
  pub readiness : List ReadinessItem
  pub runs : ℤ
  pub timeout_seconds : ℤ
  pub screenshots : Bool
  pub diagnostics : Bool
  pub expected_envelope_sha256 : Option String
  pub expected_envelope_record : Json

pub data Effect : Type 0 where
  probe_browser : Bool → Effect
  make_scratch : Effect
  write_script : String → Effect
  write_config : Fields → Effect
  spawn : ℕ → ℕ → Effect
  remove_scratch : Effect

pub record ReproductionResult : Type 0 where
  pub verdict : RunVerdict
  pub session_id : String
  pub script_sha256 : String
  pub runs : List RunAttempt
  pub flaky : Bool
  pub readiness : List ReadinessItem
  pub cancelled : Bool
  pub execution_envelope_sha256 : String
  pub execution_envelope : Json

-- `_config_spec`; `timeout_ms` is a whole number of milliseconds.
unfoldable pub config_spec : String → ℕ → Bool → Bool → Fields × Fields
config_spec base_url timeout_ms screenshots diagnostics =
    let trace = if diagnostics then field "trace" (str "retain-on-failure") end else end in
    let shots = if screenshots then field "screenshot" (str "only-on-failure") trace else trace in
    let used = field "headless" (bool true) (field "baseURL" (str base_url) shots) in
    (
      field "testDir" (str "<scratch>/tests") (
          field "outputDir" (str "<scratch>/artifacts") (
            field "timeout" (num (pos timeout_ms))
              (field "retries" (num (pos 0)) (field "workers" (num (pos 1)) end)))),
      used,
    )

-- The two parts of the spec put together, the `use` object last.
abbrev pub with_use : Fields → Fields → Fields
with_use end used = field "use" (obj used) end
with_use (field k v d) used = field k v (with_use d used)

-- Unready items that stop a run; one that does not say counts as blocking.
unfoldable pub blockers : List ReadinessItem → List ReadinessItem
blockers = keep (λ i. not i.ready && get_or i.blocking true)

abbrev pub is_absent : Option Bool → Bool
is_absent (some false) = true
is_absent _ = false

abbrev pub same_address : Address → Address → Bool
same_address a b =
    str_eq a.scheme b.scheme && same_host a.hostname b.hostname && same_port a.port b.port
  where
    same_host : Option String → Option String → Bool
    same_host none none = true
    same_host (some h) (some k) = str_eq h k
    same_host _ _ = false

    same_port : Option ℕ → Option ℕ → Bool
    same_port none none = true
    same_port (some h) (some k) = h == k
    same_port _ _ = false

module _ (m : Machine) where
  unfoldable pub check_address_allowed : String → List String → Result RunnerError (Unit {0})
  check_address_allowed url [] = err no_address_configured
  check_address_allowed url (a ∷ allowed) =
      if any (λ b. same_address (m.urlparse url) (m.urlparse b)) (a ∷ allowed)
      then ok tt
      else err address_not_allowed

  abbrev pub scrub_detail : ErrorDetail → ErrorDetail
  scrub_detail (line text) = line (m.scrub text)
  scrub_detail d = d

  abbrev pub attempt : ℕ → Outcome → RunAttempt
  attempt i (completed code output) =
      let (passed, errored, detail) = classify_run m.chars (some code) output in
      record {
        index = i;
        exit_code = some code;
        passed = passed;
        timed_out = false;
        transcript = m.scrub output;
        errored = errored;
        error_detail = scrub_detail detail;
      }
  attempt i (timeout_expired output) = record {
    index = i;
    exit_code = none;
    passed = false;
    timed_out = true;
    transcript = m.scrub (output ++ 10 ∷ codes "[timed out]");
    errored = false;
    error_detail = no_detail;
  }
  attempt i file_not_found = record {
    index = i;
    exit_code = none;
    passed = false;
    timed_out = false;
    transcript = [];
    errored = false;
    error_detail = no_detail;
  }

  -- The loop over the runs: the attempts and whether it was cancelled, and the spawns.
  unfoldable pub run_loop : ℕ → ℕ → ℕ → Result RunnerError (List RunAttempt × Bool) × List Effect
  run_loop timeout zero i = (ok ([], false), [])
  run_loop timeout (suc left) i =
      let rest = run_loop timeout left (suc i) in
      if m.should_cancel i then (ok ([], true), []) else elim (m.execute i) [
        | file_not_found ↦ (err npx_not_found, spawn i timeout ∷ [])
        | o ↦ (rest.0 >>= λ r. ok (attempt i o ∷ r.0, r.1), spawn i timeout ∷ rest.1)
      ]

  abbrev pub run_count : Request → ℕ
  run_count q = clamp 1 max_runs q.runs

  abbrev pub run_timeout : Request → ℕ
  run_timeout q = clamp 1 max_timeout_seconds q.timeout_seconds

  -- The envelope, built before anything is written; the observers are stripped from its spec.
  unfoldable pub envelope_of : Request → ExecutionEnvelope
  unfolding config_spec
  envelope_of q =
      let spec = config_spec q.base_url (run_timeout q * 1000) q.screenshots q.diagnostics in
      record {
        config_canonical =
            m.dump (with_use spec.0 (drop_keys ("trace" ∷ "screenshot" ∷ []) spec.1));
        browser = (m.probe true).build;
        base_url = q.base_url;
        timeout_ms = run_timeout q * 1000;
        retries = 0;
        diagnostics_profile = if q.diagnostics then "four-signal" else "off";
        runner_version = "1";
        env_names = m.env_allowlist;
      }

  -- An absent browser is one more blocking item; an unanswered probe is none.
  unfoldable pub full_readiness : Request → List ReadinessItem
  full_readiness q =
      q.readiness
      ++ (if is_absent (m.probe true).present
          then record { id = "browser"; ready = false; blocking = some true } ∷ []
          else [])

  abbrev pub refused_setup : Request → ReproductionResult
  refused_setup q = record {
    verdict = needs_setup;
    session_id = q.session_id;
    script_sha256 = m.script_digest q.script;
    runs = [];
    flaky = false;
    readiness = full_readiness q;
    cancelled = false;
    execution_envelope_sha256 = "";
    execution_envelope = null;
  }

  unfoldable pub concluded : Request → List RunAttempt × Bool → ReproductionResult
  concluded q (attempts, cancelled) =
      let (verdict, flaky) = derive_verdict attempts in
      record {
        verdict = if cancelled then inconclusive else verdict;
        session_id = q.session_id;
        script_sha256 = m.script_digest q.script;
        runs = attempts;
        flaky = flaky;
        readiness = full_readiness q;
        cancelled = cancelled;
        execution_envelope_sha256 = sha256 m.digest (envelope_of q);
        execution_envelope = obj (as_dict (envelope_of q));
      }

  -- From the scratch directory on; `finally` removes it unless screenshots are kept.
  unfoldable pub execute_runs : Request → Result RunnerError ReproductionResult × List Effect
  unfolding config_spec
  execute_runs q =
      let spec = config_spec q.base_url (run_timeout q * 1000) q.screenshots q.diagnostics in
      let (outcome, spawned) = run_loop (run_timeout q) (run_count q) 0 in
      (
        outcome >>= λ r. ok (concluded q r),
        make_scratch
            ∷ write_script q.script
            ∷ write_config (with_use spec.0 spec.1)
            ∷ (spawned ++ (if q.screenshots then [] else remove_scratch ∷ [])),
      )

  -- `expected_sha256 and expected_sha256 != digest`.
  abbrev pub is_other_script : Option String → String → Bool
  is_other_script none digest = false
  is_other_script (some expected) digest = not (str_eq expected "") && not (str_eq expected digest)

  -- `list(allowed_addresses or [base_url])`.
  abbrev pub allowed : Request → List String
  allowed q = if is_empty q.allowed_addresses then q.base_url ∷ [] else q.allowed_addresses

  unfoldable pub after_envelope :
      Request
      → Result EnvelopeMismatch (Unit {0})
      → Result RunnerError ReproductionResult × List Effect
  after_envelope q (err e) = (err (envelope_mismatch e), [])
  after_envelope q (ok _) =
      if not (is_empty (blockers (full_readiness q)))
      then (ok (refused_setup q), [])
      else elim (check_address_allowed q.base_url (allowed q)) [
        | err e ↦ (err e, [])
        | ok _ ↦ execute_runs q
      ]

  unfoldable pub run_reproduction : Request → Result RunnerError ReproductionResult × List Effect
  unfolding after_envelope
  run_reproduction q =
      if is_other_script q.expected_sha256 (m.script_digest q.script)
      then (err not_the_frozen_script, [])
      else let (outcome, effects) = after_envelope q (
          check_envelope m.digest q.expected_envelope_sha256 (envelope_of q)
            q.expected_envelope_record) in
        (outcome, probe_browser true ∷ effects)
