-- ===== src/Fixcheck/Verdicts.antt =====
-- When fixcheck.py calls a fix proven, and when it gives no verdict.
use stepstitch.Prelude.{
  ◌⊎◌, ◌≡◌, ◌≢◌, ◌↔◌, String, Bool, false, Option, some, none, arith, opt_is, eq_iff,
}
use stepstitch.Prelude.Text.{Text}
use stepstitch.Runner.{reproduced, not_reproduced, needs_setup, inconclusive}
use stepstitch.Runner.Run.{ReproductionResult}
use stepstitch.Fixcheck.{
  fixed, different_failure, unable_to_verify, green_signature_of, derive_fix_verdict,
}

module _ (failure_signature : Text → String) where
  -- "Fixed" is answered exactly when the red run was measured and the run after the change did not
  -- reproduce the failure; "different failure" exactly when both runs reproduced one and both have
  -- a signature and the two differ; and the fix cannot be verified exactly when no red run was
  -- measured or the run after the change gave no answer.
  pub derive_fix_verdict_exact :
      (red_verdict : Option String) (red : String) (after : ReproductionResult) (enforced : Bool)
      → let v = (derive_fix_verdict failure_signature red_verdict red after enforced).verdict in
        let green = green_signature_of failure_signature after.runs in
        ((v ≡ fixed) ↔ ((red_verdict ≡ some "reproduced") × (after.verdict ≡ not_reproduced)))
        × ((v ≡ different_failure) ↔ (
            (red_verdict ≡ some "reproduced")
            × (after.verdict ≡ reproduced)
            × (green ≢ "")
            × (red ≢ "")
            × (green ≢ red)))
        × ((v ≡ unable_to_verify) ↔ (
            (opt_is red_verdict "reproduced" ≡ false)
            ⊎ (after.verdict ≡ needs_setup)
            ⊎ (after.verdict ≡ inconclusive)))
  unfolding derive_fix_verdict
  derive_fix_verdict_exact none red after enforced = ground arith
  derive_fix_verdict_exact (some r) red after enforced =
      let green = green_signature_of failure_signature after.runs in
      ground (arith, eq_iff r "reproduced", eq_iff green "", eq_iff red "", eq_iff green red)
