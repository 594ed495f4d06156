-- ===== src/Runner.antt =====
-- service/stepstitch_service/runner.py: the verdict over the observed runs.
-- `derive_verdict` reads of each run whether it passed, timed out or never ran; the child modules
-- hold the classification of one run, the execution envelope and the whole `run_reproduction`.
pub mod Attempts
pub mod Classify
pub mod Summaries
pub mod Run
pub mod Gates
pub mod Evidence
use stepstitch.Prelude.{
  ℕ, String, Bool, true, false, not, ◌&&◌, List, Option, if◌then◌else◌, any, is_empty,
}
use stepstitch.Prelude.Int.{ℤ}
use stepstitch.Prelude.Text.{Text}

-- The four answers.
pub data RunVerdict : Type 0 where
  reproduced needs_setup not_reproduced inconclusive : RunVerdict

-- What a run reports when the test itself never ran.
pub data ErrorDetail : Type 0 where
  no_detail : ErrorDetail
  line : Text → ErrorDetail
  no_results : Option ℤ → ErrorDetail

pub record RunAttempt : Type 0 where
  pub index : ℕ
  pub exit_code : Option ℤ
  pub passed : Bool
  pub timed_out : Bool
  pub transcript : Text
  pub errored : Bool
  pub error_detail : ErrorDetail

abbrev pub failed : RunAttempt → Bool
failed a = not a.passed

-- `len({a.passed for a in attempts}) > 1`: both outcomes occur.
abbrev pub mixed : List RunAttempt → Bool
mixed attempts = any (λ a. a.passed) attempts && any failed attempts

unfoldable pub derive_verdict : List RunAttempt → RunVerdict × Bool
derive_verdict attempts =
    if is_empty attempts
    then (inconclusive, false)
    else if any (λ a. a.errored) attempts
    then (inconclusive, false)
    else if any (λ a. a.timed_out) attempts
    then (inconclusive, mixed attempts)
    else if mixed attempts
    then (inconclusive, true)
    -- one outcome is left in the set, and it is popped
    else (if any (λ a. a.passed) attempts then not_reproduced else reproduced, false)
