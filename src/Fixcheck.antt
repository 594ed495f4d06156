-- ===== src/Fixcheck.antt =====
-- service/stepstitch_service/fixcheck.py: the verdict on a fix, from the frozen red run and the
-- run made after the change.
-- `failure_signature`, which reads a transcript through the scrubber's text rules, is a parameter;
-- the sentences of `detail` are the constructors of `Detail`.
pub mod Verdicts
use stepstitch.Prelude.{
  String, Bool, true, false, not, ◌&&◌, Option, none, some, List, [], ◌∷◌, str_eq, opt_is, get_or,
  if◌then◌else◌, is_empty,
}
use stepstitch.Prelude.Text.{Text}
use stepstitch.Runner.{
  RunVerdict, reproduced, needs_setup, not_reproduced, inconclusive, RunAttempt,
}
use stepstitch.Runner.Run.{ReproductionResult}

pub data FixOutcome : Type 0 where
  fixed still_failing different_failure unable_to_verify : FixOutcome

pub data Detail : Type 0 where
  no_measured_red failure_is_gone same_failure machine_cannot_run no_reliable_answer : Detail
  moved_problem : String → String → Detail

pub record FixVerdict : Type 0 where
  pub verdict : FixOutcome
  pub detail : Detail
  pub script_sha256 : String
  pub red_verdict : String
  pub green_verdict : RunVerdict
  pub red_signature : String
  pub green_signature : String
  pub flaky : Bool
  pub envelope_enforced : Bool

module _ (failure_signature : Text → String) where
  -- The signature of the first failed attempt that has one.
  unfoldable pub green_signature_of : List RunAttempt → String
  green_signature_of [] = ""
  green_signature_of (a ∷ attempts) =
      let rest = green_signature_of attempts in
      if not a.passed && not (is_empty a.transcript)
      then (let found = failure_signature a.transcript in if str_eq found "" then rest else found)
      else rest

  abbrev base :
      Option String → String → ReproductionResult → Bool → FixOutcome → Detail → FixVerdict
  base red_verdict red_signature after envelope_enforced verdict detail = record {
    verdict = verdict;
    detail = detail;
    script_sha256 = after.script_sha256;
    red_verdict = get_or red_verdict "";
    green_verdict = after.verdict;
    red_signature = red_signature;
    green_signature = green_signature_of after.runs;
    flaky = after.flaky;
    envelope_enforced = envelope_enforced;
  }

  abbrev judge_red : String → String → FixOutcome × Detail
  judge_red red green =
      if not (str_eq green "") && not (str_eq red "") && not (str_eq green red)
      then (different_failure, moved_problem red green)
      else (still_failing, same_failure)

  -- The answer from the verdict of the run after the change.
  judge : RunVerdict → String → String → FixOutcome × Detail
  judge not_reproduced red green = (fixed, failure_is_gone)
  judge reproduced red green = judge_red red green
  judge needs_setup red green = (unable_to_verify, machine_cannot_run)
  judge inconclusive red green = (unable_to_verify, no_reliable_answer)

  unfoldable pub derive_fix_verdict :
      Option String → String → ReproductionResult → Bool → FixVerdict
  unfolding judge
  derive_fix_verdict red_verdict red_signature after envelope_enforced =
      if opt_is red_verdict "reproduced"
      then (let (verdict, detail) =
            judge after.verdict red_signature (green_signature_of after.runs) in
          base red_verdict red_signature after envelope_enforced verdict detail)
      else base red_verdict red_signature after envelope_enforced unable_to_verify no_measured_red
