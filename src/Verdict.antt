-- ===== src/Verdict.antt =====
-- service/stepstitch_service/verification/verdict.py: the verdict over a pre-fix and a post-fix
-- run of the reproduction, as a caller reports them.
use stepstitch.Prelude.{Bool, Option, none, some, String, if◌then◌else◌}

pub data Verdict : Type 0 where
  not_reproduced reproduced_unfixed not_fixed confirmed_fixed : Verdict

-- The text that is stored for a verdict.
abbrev pub verdict_text : Verdict → String
verdict_text not_reproduced = "not_reproduced"
verdict_text reproduced_unfixed = "reproduced_unfixed"
verdict_text not_fixed = "not_fixed"
verdict_text confirmed_fixed = "confirmed_fixed"

unfoldable pub derive_verdict : Bool → Option Bool → Verdict
derive_verdict pre_passed post_passed = if pre_passed then not_reproduced else elim post_passed [
  | none ↦ reproduced_unfixed
  | some post ↦ if post then confirmed_fixed else not_fixed
]

pub record VerificationResult : Type 0 where
  pub trace_id : String
  pub pre_passed : Bool
  pub post_passed : Option Bool
  pub verdict : Verdict
  pub fix_ref : Option String
  pub run_url : Option String
