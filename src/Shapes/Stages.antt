-- ===== src/Shapes/Stages.antt =====
-- The stage of a shape, from the verdicts on its traces (derive_stage of shapes.py).
use stepstitch.Prelude.{
  ◌≤◌, ◌≡◌, String, Bool, true, false, some, List, [], ◌∷◌, arith, if◌then◌else◌, contains,
}
use stepstitch.Verdict.{
  verdict_text, confirmed_fixed, not_fixed, not_reproduced, reproduced_unfixed,
}
use stepstitch.Shapes.{
  Stage, fixed, fix_failed, reproduced, repro_invalid, known_shape, untriaged, stage_rank,
  verdict_stage, promote, advance, derive_stage,
}

-- The stage that a set of verdicts stands for, whatever their order.
abbrev pub top_stage : Stage → List String → Stage
top_stage floor vs =
    if contains (verdict_text confirmed_fixed) vs
    then fixed
    else if contains (verdict_text not_fixed) vs
    then fix_failed
    else if contains (verdict_text reproduced_unfixed) vs
    then reproduced
    else if contains (verdict_text not_reproduced) vs
    then repro_invalid
    else floor

abbrev higher : Stage → Stage → Stage
higher a b = promote a (some b)

advance-higher :
    (stage floor : Stage) (vs : List String)
    → stage_rank floor ≤ stage_rank stage
    → stage_rank floor ≤ 1
    → advance stage vs ≡ higher stage (top_stage floor vs)
unfolding advance
advance-higher stage floor [] h k = ground arith
advance-higher stage floor (v ∷ vs) h k =
    ground (arith, advance-higher (promote stage (verdict_stage v)) floor vs)

-- The most advanced verdict decides the stage, whatever the order and number of the verdicts; a
-- prior fix counts only where no verdict is known.
pub derive_stage_exact :
    (verdicts : List String) (has_prior_fix : Bool)
    → derive_stage verdicts has_prior_fix ≡ (
        if contains "confirmed_fixed" verdicts
        then fixed
        else if contains "not_fixed" verdicts
        then fix_failed
        else if contains "reproduced_unfixed" verdicts
        then reproduced
        else if contains "not_reproduced" verdicts
        then repro_invalid
        else if has_prior_fix
        then known_shape
        else untriaged)
unfolding derive_stage
derive_stage_exact verdicts true = ground (arith, advance-higher known_shape known_shape verdicts)
derive_stage_exact verdicts false = ground (arith, advance-higher untriaged untriaged verdicts)
